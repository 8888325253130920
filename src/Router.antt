-- ===== src/Router.antt =====
-- ServerClientConnection.h and .cpp: the class ServerSocketsRouter, which serves the sockets of the
-- clients, with the sets of descriptors that pselect takes. The connections and pselect are
-- parameters.
pub mod Serve
pub mod Sets
pub mod Coherent
pub mod Release
pub mod Releases
mod Tests
use hex.Base.{
  ℕ, zero, suc, ◌+◌, ◌-◌, ◌*◌, ◌/◌, Bool, true, false, not, ◌||◌, Option, none, some, List, [], ◌∷◌,
  ◌++◌, ℤ, pos, ◌+ℤ◌, ◌-ℤ◌, ◌==◌, ltb, leb, if◌then◌else◌, take, drop, replicate,
}

-- fd_set by its 1024 bits, 64 of them to a word
abbrev pub FdSet : Type 0
FdSet = List Bool

abbrev pub fd_zero : FdSet
fd_zero = replicate 1024 false

unfoldable pub fd_isset : ℕ → FdSet → Bool
fd_isset s [] = false
fd_isset zero (b ∷ bs) = b
fd_isset (suc s) (b ∷ bs) = fd_isset s bs

unfoldable pub fd_put : Bool → ℕ → FdSet → FdSet
fd_put v s [] = []
fd_put v zero (b ∷ bs) = v ∷ bs
fd_put v (suc s) (b ∷ bs) = b ∷ fd_put v s bs

abbrev pub fd_set : ℕ → FdSet → FdSet
fd_set s bs = fd_put true s bs

abbrev pub fd_clr : ℕ → FdSet → FdSet
fd_clr s bs = fd_put false s bs

-- what a function can end with: an exception that is a text, std::out_of_range, a failed assertion,
-- a call through a null pointer, or an access outside an array
pub data Thrown : Type 0 where
  text out_of_range assertion null_pointer overrun : Thrown

-- std::map from descriptors to connections, of type `C`
abbrev pub SocketMap : Type 0 → Type 0
SocketMap C = List (ℕ × C)

unfoldable pub find : {C : Type 0} → ℕ → SocketMap C → Option C
find s [] = none
find s ((k, c) ∷ m) = let rest = find s m in if k == s then some c else rest

unfoldable pub store : {C : Type 0} → ℕ → C → SocketMap C → SocketMap C
store s c' [] = []
store s c' ((k, c) ∷ m) = let rest = store s c' m in if k == s then (k, c') ∷ m else (k, c) ∷ rest

-- `none` where there is nothing to erase
erased : {C : Type 0} → (ℕ × C) → Option (SocketMap C) → Option (SocketMap C)
erased e none = none
erased e (some m) = some (e ∷ m)

unfoldable pub erase : {C : Type 0} → ℕ → SocketMap C → Option (SocketMap C)
unfolding erased
erase s [] = none
erase s ((k, c) ∷ m) = let rest = erase s m in if k == s then some m else erased (k, c) rest

pub record ServerSocketsRouter (C : Type 0) : Type 0 where
  pub socket_map : SocketMap C
  pub nb_client_connections : ℤ
  pub dead_list : List ℕ
  pub clientsocks_fds : FdSet
  pub clientsocks_nfds : ℕ
  pub select_readfds : FdSet
  pub select_writefds : FdSet
  pub select_errorfds : FdSet

pub data Out (C : Type 0) (A : Type 0) : Type 0 where
  ok : A → ServerSocketsRouter C → Out C A
  raised : Thrown → ServerSocketsRouter C → Out C A

-- how `new ServerClientConnection` ends, whose constructor makes the socket and configures it
pub data Made (C : Type 0) : Type 0 where
  made : C → Made C
  not_made : Thrown → Made C

-- the constructor, on sets that the memory held
unfoldable pub server_sockets_router :
    {C : Type 0} → (read write error : FdSet) → ServerSocketsRouter C
server_sockets_router read write error = record {
  socket_map = [];
  nb_client_connections = pos 0;
  dead_list = [];
  clientsocks_fds = fd_zero;
  clientsocks_nfds = 0;
  select_readfds = read;
  select_writefds = write;
  select_errorfds = error;
}

-- the loop over `s` from the argument down to 1
unfoldable pub highest : (s : ℕ) → FdSet → ℕ
highest zero bs = 0
highest (suc s) bs = let rest = highest s bs in if fd_isset (suc s) bs then suc s + 1 else rest

module _ {C : Type 0} where
  -- `socket_map.insert`, and what follows it
  inserted : Option C → ℕ → C → ServerSocketsRouter C → Out C C
  inserted (some old) d c r = raised text r
  inserted none d c r = ok c (record r {
    socket_map = (d, c) ∷ r.socket_map;
    nb_client_connections = r.nb_client_connections +ℤ pos 1;
  })

  created : ℕ → Made C → ServerSocketsRouter C → Out C C
  unfolding inserted
  created d (made c) r = inserted (find d r.socket_map) d c r
  created d (not_made e) r = raised e r

  -- `new_client` is how the constructor of the connection ends
  unfoldable pub create_client_connection :
      (d : ℕ) (new_client : Made C) → ServerSocketsRouter C → Out C C
  unfolding created
  create_client_connection d new_client r =
      if fd_isset d r.clientsocks_fds
      then raised text r
      else created d new_client (record r {
        clientsocks_nfds = if leb r.clientsocks_nfds d then d + 1 else r.clientsocks_nfds;
        clientsocks_fds = fd_set d r.clientsocks_fds;
      })

  released : Option (SocketMap C) → ServerSocketsRouter C → Out C (Unit {0})
  released none r = raised assertion r
  released (some m) r =
      ok tt (record r { socket_map = m; nb_client_connections = r.nb_client_connections -ℤ pos 1 })

  unfoldable pub release_client_connection : (d : ℕ) → ServerSocketsRouter C → Out C (Unit {0})
  unfolding released
  release_client_connection d r =
      let fds = fd_clr d r.clientsocks_fds in
      released (erase d r.socket_map) (record r {
        clientsocks_fds = fds;
        select_writefds = fd_clr d r.select_writefds;
        clientsocks_nfds =
            if d + 1 == r.clientsocks_nfds then highest (d - 1) fds else r.clientsocks_nfds;
      })

  flagged : Option C → ℕ → ServerSocketsRouter C → Out C (Unit {0})
  flagged none d r = raised out_of_range r
  flagged (some c) d r = ok tt (
      if fd_isset d r.select_writefds
      then r
      else record r { select_writefds = fd_set d r.select_writefds })

  unfoldable pub outgoing_data_for_client : (d : ℕ) → ServerSocketsRouter C → Out C (Unit {0})
  unfolding flagged
  outgoing_data_for_client d r = flagged (find d r.socket_map) d r

  -- the number of bits in the words that _fdsCopy and _fdsExtractList visit
  abbrev pub nb_bits : ServerSocketsRouter C → ℕ
  nb_bits r = 64 * (r.clientsocks_nfds / 64 + 1)

  -- `none` where they leave the array of words
  unfoldable pub fds_copy : ServerSocketsRouter C → (from to : FdSet) → Option FdSet
  fds_copy r from to =
      if ltb 1024 (nb_bits r) then none else some (take (nb_bits r) from ++ drop (nb_bits r) to)

-- the local variables of _fdsExtractList
pub record Extraction : Type 0 where
  pub the_list : List ℕ
  pub list_size : ℕ
  pub sock_id : ℕ

-- the loop over the bits of a word
unfoldable pub extract_bits : List Bool → Extraction → Extraction
extract_bits [] e = e
extract_bits (true ∷ m) e = extract_bits m (record {
  the_list = e.the_list ++ e.sock_id ∷ [];
  list_size = e.list_size + 1;
  sock_id = e.sock_id + 1;
})
extract_bits (false ∷ m) e = extract_bits m (record e { sock_id = e.sock_id + 1 })

-- `m != 0`
unfoldable pub is_nonzero : List Bool → Bool
is_nonzero [] = false
is_nonzero (b ∷ m) = b || is_nonzero m

-- the loop over the words
unfoldable pub extract_words : (words : ℕ) → FdSet → Extraction → Extraction
unfolding extract_bits is_nonzero
extract_words zero bs e = e
extract_words (suc words) bs e = extract_words words (drop 64 bs) (
    if is_nonzero (take 64 bs)
    then extract_bits (take 64 bs) e
    else record e { sock_id = e.sock_id + 64 })

-- the list and its length
unfoldable pub fds_extract_list : {C : Type 0} → ServerSocketsRouter C → FdSet → Option (List ℕ × ℕ)
unfolding extract_words
fds_extract_list r bs =
    let e =
      extract_words (r.clientsocks_nfds / 64 + 1) bs
        (record { the_list = []; list_size = 0; sock_id = 0 }) in
    if ltb 1024 (nb_bits r) then none else some (e.the_list, e.list_size)
