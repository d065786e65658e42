-- ===== src/Feed/Handles.antt =====
-- What the feed takes from the operating system and gives back: `open` and `close` of
-- src/itch_replay.cpp, `init` and `close` of src/udp_server.cpp and src/udp_receiver.cpp, and
-- src/replay_server_main.cpp. What the system answers is an argument, `none` for an error, and
-- each call that makes or releases a handle is part of the result. The calls are those of POSIX.
pub mod Balance
pub mod Mapping
pub mod Sockets
mod Tests
use tickpipe.Base.{
  ℕ, ◌*◌, ◌/◌, ◌%◌, Bool, true, false, not, Option, none, some, List, [], ◌∷◌, ◌++◌, if◌then◌else◌,
}
use tickpipe.Feed.Server.{UdpServer, new}
use tickpipe.Feed.Server.File.{Conditions, replay_file}
use tickpipe.Feed.Server.File

-- A mapping has its address and its size.
pub data Handle : Type 0 where
  descriptor file : ℕ → Handle
  mapping : ℕ → ℕ → Handle

pub data Call : Type 0 where
  acquire release : Handle → Call

-- `nullptr` is `none`.
pub record ItchReplay : Type 0 where
  pub mapped : Option ℕ
  pub mapped_size : ℕ
  pub file : Option ℕ

unfoldable pub closed : ItchReplay
closed = record { mapped = none; mapped_size = 0; file = none }

-- What `open`, `fstat` and `mmap` answer.
pub record Answers : Type 0 where
  pub fd : Option ℕ
  pub size : Option ℕ
  pub address : Option ℕ

-- `open` behind `fstat`. The advice of `madvise` is left out.
unfoldable pub map_file : ℕ → ℕ → Option ℕ → ItchReplay → Bool × List Call × ItchReplay
map_file fd size none r = (
  false,
  acquire (descriptor fd) ∷ release (descriptor fd) ∷ [],
  record r { mapped = none; mapped_size = size },
)
map_file fd size (some address) r = (
  true,
  acquire (descriptor fd) ∷ acquire (mapping address size) ∷ release (descriptor fd) ∷ [],
  record r { mapped = some address; mapped_size = size },
)

unfoldable pub open_file : Answers → ItchReplay → Bool × List Call × ItchReplay
open_file a r = elim a.fd [
  | none ↦ (false, [], r)
  | some fd ↦ elim a.size [
    | none ↦ (false, acquire (descriptor fd) ∷ release (descriptor fd) ∷ [], r)
    | some size ↦ map_file fd size a.address r
  ]
]

unfoldable pub unmap : ItchReplay → List Call × ItchReplay
unmap r = elim r.mapped [
  | none ↦ ([], r)
  | some address ↦
      (release (mapping address r.mapped_size) ∷ [], record r { mapped = none; mapped_size = 0 })
]

unfoldable pub close_file : ItchReplay → List Call × ItchReplay
close_file r = elim r.file [
  | none ↦ ([], r)
  | some f ↦ (release (file f) ∷ [], record r { file = none })
]

-- `close`, which is also what the destructor does.
unfoldable pub close : ItchReplay → List Call × ItchReplay
close r = let (calls, r') = unmap r in let (calls', r'') = close_file r' in (calls ++ calls', r'')

-- What a program does with one `ItchReplay` before it is destroyed.
pub data Use : Type 0 where
  opening : Answers → Use
  closing : Use

unfoldable pub apply_use : Use → ItchReplay → List Call × ItchReplay
apply_use (opening a) r = ((open_file a r).1, (open_file a r).2)
apply_use closing r = close r

-- The uses and the destructor.
unfoldable pub use_all : List Use → ItchReplay → List Call
use_all [] r = (close r).0
use_all (u ∷ us) r = let (calls, r') = apply_use u r in calls ++ use_all us r'

-- `sock_`, with `none` for `INVALID`. `UdpServer::init` is given what `socket` returns.
unfoldable pub init_server : Option ℕ → Bool × List Call × Option ℕ
init_server none = (false, [], none)
init_server (some fd) = (true, acquire (descriptor fd) ∷ [], some fd)

-- The release of the socket in `close`, of the server and of the receiver.
unfoldable pub close_socket : Option ℕ → List Call × Option ℕ
close_socket none = ([], none)
close_socket (some fd) = (release (descriptor fd) ∷ [], none)

-- `UdpReceiver::init`, with what `socket` returns and whether `bind` succeeds.
unfoldable pub init_receiver : Option ℕ → Bool → Bool × List Call × Option ℕ
init_receiver none bound = (false, [], none)
init_receiver (some fd) true = (true, acquire (descriptor fd) ∷ [], some fd)
init_receiver (some fd) false =
    let (calls, sock) = close_socket (some fd) in (false, acquire (descriptor fd) ∷ calls, sock)

-- The seconds and microseconds that `set_timeout` asks for.
unfoldable pub timeout : ℕ → ℕ × ℕ
timeout ms = (ms / 1000, ms % 1000 * 1000)

-- `replay_file` with `fopen`, which returned a file with its bytes or none, and with the `fclose`
-- that it comes to when the loop has ended.
unfoldable pub replay_path :
    Conditions → Option (ℕ × List ℕ) → UdpServer → Option (List Call × List (List ℕ) × UdpServer)
replay_path c none s = some ([], [], s)
replay_path c (some (f, bytes)) s = elim (replay_file c (some bytes) s) [
  | none ↦ none
  | some (out, s') ↦ some (acquire (file f) ∷ (release (file f) ∷ []), out, s')
]

-- `main` of the replay server: its code, the calls and the datagrams, `none` when `replay_file`
-- does not return. The server's destructor closes the socket; what is printed is left out.
unfoldable pub main :
    Conditions → Option ℕ → Option (ℕ × List ℕ) → Bool → Option (ℕ × List Call × List (List ℕ))
main c socket f sent =
    let (ok, calls, sock) = init_server socket in
    if not ok
    then some (1, calls ++ (close_socket sock).0, (File.close false sent new).0)
    else elim (replay_path c f new) [
      | none ↦ none
      | some (replayed, out, s) ↦
          some (0, calls ++ (replayed ++ (close_socket sock).0), out ++ (File.close true sent s).0)
    ]
