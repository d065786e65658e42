-- ===== src/Feed/Wire/Within.antt =====
-- The receiver reads a message and nothing behind it, and does not look at the expected number.
use tickpipe.Base.{
  ℕ, ◌<◌, ◌≡◌, refl, sym, ap, ◌∙◌, inl, inr, Bool, true, false, Option, none, some, List, [], ◌∷◌,
  ◌++◌, ◌&&◌, not, arith, leb, ◌==◌, Bool-cases, if◌then◌else◌, Bytes, advance, inc64, bytes_of,
  length,
}
use tickpipe.Itch.Order.{Order}
use tickpipe.Itch.Parser.{be16, parse}
use tickpipe.Itch.Parser.Reads.{Agree, be16_ext, parse-reads_within}
use tickpipe.Symbols.{SymbolDirectory, feed, is_subscribed}
use tickpipe.Feed.Receiver.{UdpReceiver, parse_message, handle_known, handle_message}
use tickpipe.Feed.Wire.{handle_all}

same_option {ℓ ℓ'} :
    {A : Type ℓ} {B : Type ℓ'} (o : Option A) {n n' : B} {f f' : A → B}
    → n ≡ n'
    → ((a : A) → f a ≡ f' a)
    → elim o [ none ↦ n | some a ↦ f a ] ≡ elim o [ none ↦ n' | some a ↦ f' a ]
same_option none e h = e
same_option (some a) e h = h a

module _ (len : ℕ) (d d' : Bytes) (same : Agree len d d') (pos : 0 < len) where
  feed_within : (s : SymbolDirectory) → feed s (some d) len ≡ feed s (some d') len
  unfolding feed
  feed_within s = elim (Bool-cases (len == 39)) [
    | inl e ↦
        let long : 38 < len = ground (arith, e) in
        let locate =
          be16_ext (advance d 1) (advance d' 1) (same 1 (omega arith)) (same 2 (omega arith)) in
        cc (
          same 0 pos,
          locate,
          same 11 (omega arith),
          same 12 (omega arith),
          same 13 (omega arith),
          same 14 (omega arith),
          same 15 (omega arith),
          same 16 (omega arith),
          same 17 (omega arith),
          same 18 (omega arith),
        )
    | inr ne ↦ rw ne
  ]

  parse_message_within : (r : UdpReceiver) → parse_message r d len ≡ parse_message r d' len
  unfolding parse_message
  parse_message_within r = rw (parse-reads_within len d d' same r.parser r.order)

  handle_known_within :
      (r : UdpReceiver) (s : SymbolDirectory) → handle_known r s d len ≡ handle_known r s d' len
  unfolding handle_known
  handle_known_within r s =
      let dir = (feed s (some d) len).1 in
      let parsed : parse_message (record r { directory = some dir }) d len
          ≡ parse_message (record r { directory = some dir }) d' len =
        parse_message_within (record r { directory = some dir }) in
      elim (Bool-cases (leb 3 len)) [
        | inl long ↦
            let locate =
              be16_ext (advance d 1) (advance d' 1) (same 1 (ground (arith, long)))
                (same 2 (ground (arith, long))) in
            rw (sym (feed_within s), locate, parsed)
        | inr short ↦ rw (sym (feed_within s), short, parsed)
      ]

  pub handle_message_within : (r : UdpReceiver) → handle_message r d len ≡ handle_message r d' len
  unfolding handle_message
  handle_message_within r = same_option r.directory (parse_message_within r) (handle_known_within r)

-- The result of a step with another number expected.
abbrev pub put_seq : ℕ → List Order × UdpReceiver → List Order × UdpReceiver
put_seq x (os, r) = (os, record r { expected_seq = x })

if-apply {ℓ} :
    {A B : Type ℓ} (f : A → B) (c : Bool) (x y : A)
    → f (if c then x else y) ≡ (if c then f x else f y)
if-apply f true x y = refl
if-apply f false x y = refl

module _ (r : UdpReceiver) (d : Bytes) (len x : ℕ) where
  parse_message-put_seq :
      parse_message (record r { expected_seq = x }) d len ≡ put_seq x (parse_message r d len)
  unfolding parse_message
  parse_message-put_seq = sym (if-apply (put_seq x) (parse r.parser (some d) len r.order).0 _ _)

handle_known-put_seq :
    (r : UdpReceiver) (s : SymbolDirectory) (d : Bytes) (len x : ℕ)
    → handle_known (record r { expected_seq = x }) s d len ≡ put_seq x (handle_known r s d len)
unfolding handle_known
handle_known-put_seq r s d len x =
    let dir = (feed s (some d) len).1 in
    let r' = record r { directory = some dir } in
    let parsed = parse_message-put_seq r' d len x in
    ap
      (λ (t : List Order × UdpReceiver).
        if (feed s (some d) len).0
        then ([], record r' { directory_messages = inc64 r.directory_messages; expected_seq = x })
        else if leb 3 len && not (is_subscribed dir (be16 (advance d 1)))
        then ([], record r' { messages_filtered = inc64 r.messages_filtered; expected_seq = x })
        else t)
      parsed
    ∙ sym (
        if-apply (put_seq x) (feed s (some d) len).0 _ _
        ∙ ap
            (λ (t : List Order × UdpReceiver).
              if (feed s (some d) len).0
              then (
                [],
                record r' { directory_messages = inc64 r.directory_messages; expected_seq = x },
              )
              else t)
            (if-apply (put_seq x) (leb 3 len && not (is_subscribed dir (be16 (advance d 1)))) _ _))

option-apply {ℓ ℓ'} :
    {A : Type ℓ} {B : Type ℓ'} (F : B → B) (o : Option A) {n n' : B} {f f' : A → B}
    → n' ≡ F n
    → ((a : A) → f' a ≡ F (f a))
    → elim o [ none ↦ n' | some a ↦ f' a ] ≡ F (elim o [ none ↦ n | some a ↦ f a ])
option-apply F none e h = e
option-apply F (some a) e h = h a

handle_message-put_seq :
    (r : UdpReceiver) (d : Bytes) (len x : ℕ)
    → handle_message (record r { expected_seq = x }) d len ≡ put_seq x (handle_message r d len)
unfolding handle_message
handle_message-put_seq r d len x =
    option-apply (put_seq x) r.directory (parse_message-put_seq r d len x)
      (λ s. handle_known-put_seq r s d len x)

-- So do all messages, one by one.
pub handle_all-put_seq :
    (r : UdpReceiver) (ms : List (List ℕ)) (x : ℕ)
    → handle_all (record r { expected_seq = x }) ms ≡ put_seq x (handle_all r ms)
unfolding handle_all
handle_all-put_seq r [] x = refl
handle_all-put_seq r (m ∷ ms) x =
    let (os, r') = handle_message r (bytes_of m) (length m) in
    ap (λ (t : List Order × UdpReceiver). let rest = handle_all t.1 ms in (t.0 ++ rest.0, rest.1))
      (handle_message-put_seq r (bytes_of m) (length m) x)
    ∙ ap (λ (t : List Order × UdpReceiver). (os ++ t.0, t.1)) (handle_all-put_seq r' ms x)
