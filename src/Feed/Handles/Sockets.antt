-- ===== src/Feed/Handles/Sockets.antt =====
-- The sockets of the feed, and the replay server as a whole.
use tickpipe.Base.{
  ℕ, ◌+◌, ◌*◌, ◌≡◌, ◌<◌, refl, ap, Bool, true, false, Option, none, some, List, [], ◌∷◌, ◌++◌,
  arith,
}
use tickpipe.Feed.Server.{UdpServer, new}
use tickpipe.Feed.Server.File.{
  Conditions, max_msg_size, pause, replay_message, finish, before, replay_loop, replay_file,
}
use tickpipe.Feed.Server.File
use tickpipe.Feed.Server.Replaying.{Ends, replay_file-Ends, new-IsPacked, new-IsCounted}
use tickpipe.Feed.Handles.{
  Call, acquire, release, descriptor, file, init_server, close_socket, init_receiver, timeout,
  replay_path, main,
}
use tickpipe.Feed.Handles.Balance.{Hands, each_kind}

-- What `main` makes of a replay.
abbrev served :
    ℕ → ℕ → Bool → Option (List (List ℕ) × UdpServer) → Option (ℕ × List Call × List (List ℕ))
served fd n sent o =
    let closed_file : Option (List Call × List (List ℕ) × UdpServer) = elim o [
      | none ↦ none
      | some (out, s) ↦ some (acquire (file n) ∷ (release (file n) ∷ []), out, s)
    ] in
    elim closed_file [
      | none ↦ none
      | some (replayed, out, s) ↦ some (
        0,
        acquire (descriptor fd) ∷ (replayed ++ (release (descriptor fd) ∷ [])),
        out ++ (File.close true sent s).0,
      )
    ]

-- Every way through the replay server ends, with the handles given back.
main_lem :
    (c : Conditions) (socket : Option ℕ) (f : Option (ℕ × List ℕ)) (sent : Bool)
    → (c.paced ≡ true → 0 < c.speed)
    → (calls : List Call) × (out : List (List ℕ)) × (main c socket f sent
        ≡ some (elim socket [ none ↦ 1 | some _ ↦ 0 ], calls, out))
      × Hands [] calls []
unfolding main init_server close_socket File.close replay_path Ends
main_lem c none f sent speed = ([], [], refl, each_kind _ _ _ refl refl refl)
main_lem c (some fd) none sent speed = (_, _, refl, each_kind _ _ _ refl refl refl)
main_lem c (some fd) (some (n, bytes)) sent speed =
    let (out, s, e, _, _) = replay_file-Ends c bytes new speed new-IsPacked new-IsCounted in
    (_, out ++ (File.close true sent s).0, ap (served fd n sent) e, each_kind _ _ _ refl refl refl)

-- `init` of the receiver holds a socket exactly when it succeeds, and a `close` gives it back.
init_receiver-Hands :
    (socket : Option ℕ) (bound : Bool)
    → let (ok, calls, sock) = init_receiver socket bound in
      (ok ≡ elim sock [ none ↦ false | some _ ↦ true ])
      × Hands [] (calls ++ (close_socket sock).0) []
unfolding init_receiver close_socket
init_receiver-Hands none bound = (refl, each_kind _ _ _ refl refl refl)
init_receiver-Hands (some fd) true = (refl, each_kind _ _ _ refl refl refl)
init_receiver-Hands (some fd) false = (refl, each_kind _ _ _ refl refl refl)

-- `set_timeout` loses no time, and the microseconds are less than a second.
timeout_lem :
    (ms : ℕ)
    → let (sec, usec) = timeout ms in (sec * 1_000_000 + usec ≡ ms * 1000) × (usec < 1_000_000)
unfolding timeout
timeout_lem ms = (omega arith, omega arith)
