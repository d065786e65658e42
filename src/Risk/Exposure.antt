-- ===== src/Risk/Exposure.antt =====
-- The positions across accepted fills.
use tickpipe.Base.{
  ℕ, ◌+◌, ◌≤◌, ◌<◌, ◌≡◌, sym, u64, inl, inr, Bool, true, false, List, arith, ◌==◌, Bool-cases,
  if◌then◌else◌, update, update_self, update_ne, ==_iff, subst, ℤ, pos, ◌+ℤ◌, ◌-ℤ◌, +ℤ_parts,
  -ℤ_parts,
}
use tickpipe.Itch.Order.{Side, Order, is_buy}
use tickpipe.Risk.{
  RiskEngine, accepted, PositionEntry, max_net_position, max_instruments, find_or_create, check,
  fill, on_fill,
}
use tickpipe.Risk.Limits.{
  IsValid, Finds, find_or_create_lem, find_or_create-IsFirst, find_or_create-IsFull,
}
use tickpipe.Risk.Accept.{InLimit, count_accepted, check-accepted_iff, check-after}

-- Every position in the table is within the limit.
unfoldable pub InLimits : RiskEngine → Type 0
InLimits r = (k : ℕ) → k < max_instruments → InLimit (r.positions k).net_position

find_again :
    {r : RiskEngine} {stock : List ℕ}
    → Finds r stock (find_or_create r stock)
    → find_or_create (count_accepted (find_or_create r stock).1) stock
      ≡ ((find_or_create r stock).0, count_accepted (find_or_create r stock).1)
find_again {r} {stock} f = elim f.found [
  | inl first ↦
      find_or_create-IsFirst
        (record { used = first.used; match = first.match; before = first.before })
  | inr (e, full) ↦
      subst
        (λ (f : ℕ × RiskEngine).
          find_or_create (count_accepted f.1) stock ≡ (f.0, count_accepted f.1))
        (sym e)
        (find_or_create-IsFull (record { count = full.count; none_there = full.none_there }))
]

filled_buy : (p : ℤ) (n q : ℕ) → InLimit p → InLimit (p +ℤ pos n) → q ≤ n → InLimit (p +ℤ pos q)
filled_buy p n q h h' le = record {
  above = omega (arith, h.above, h'.above, +ℤ_parts p (pos n), +ℤ_parts p (pos q));
  below = omega (arith, h.below, h'.below, +ℤ_parts p (pos n), +ℤ_parts p (pos q));
}

filled_sell :
    (p : ℤ) (n q : ℕ) → InLimit p → InLimit (p +ℤ (pos 0 -ℤ pos n)) → q ≤ n → InLimit (p -ℤ pos q)
filled_sell p n q h h' le =
    let wide = +ℤ_parts p (pos 0 -ℤ pos n) in
    let minus = -ℤ_parts (pos 0) (pos n) in
    let step = -ℤ_parts p (pos q) in
    record {
      above = omega (arith, h.above, h'.above, wide, minus, step);
      below = omega (arith, h.below, h'.below, wide, minus, step);
    }

-- A part of a fill leaves the position between where it was and where the whole fill takes it.
part_filled :
    (b : Bool) (p : PositionEntry) (n q : ℕ)
    → InLimit p.net_position
    → InLimit (p.net_position +ℤ (if b then pos n else pos 0 -ℤ pos n))
    → q ≤ n
    → InLimit
        (if b
          then record p {
            net_position = p.net_position +ℤ pos q;
            gross_bought = u64 (p.gross_bought + q);
          }
          else record p {
            net_position = p.net_position -ℤ pos q;
            gross_sold = u64 (p.gross_sold + q);
          }).net_position
part_filled true p n q h h' le = filled_buy p.net_position n q h h' le
part_filled false p n q h h' le = filled_sell p.net_position n q h h' le

fill-InLimit :
    (side : Side) (p : PositionEntry) (n q : ℕ)
    → InLimit p.net_position
    → InLimit (p.net_position +ℤ (if is_buy side then pos n else pos 0 -ℤ pos n))
    → q ≤ n
    → InLimit (fill side q p).net_position
unfolding fill
fill-InLimit side p n q h h' le = part_filled (is_buy side) p n q h h' le

pub InLimit-zero : InLimit (pos 0)
InLimit-zero = record {
  above = omega (arith, -ℤ_parts (pos 0) (pos max_net_position));
  below = omega arith;
}

-- The table that `find_or_create` returns is within the limits where the old one was.
pub find_or_create-InLimits :
    {r : RiskEngine} (stock : List ℕ) → IsValid r → InLimits r → InLimits (find_or_create r stock).1
unfolding InLimits
find_or_create-InLimits {r} stock v h k lt =
    let f = find_or_create_lem stock v in
    elim (Bool-cases (k == (find_or_create r stock).0)) [
      | inr ne ↦
          subst (λ (p : PositionEntry). InLimit p.net_position) (sym (f.others k (ground arith)))
            (h k lt)
      | inl e ↦
          subst (λ n. InLimit ((find_or_create r stock).1.positions n).net_position)
            (sym ((==_iff _ _).0 e))
            (elim f.kept [
              | inl same ↦
                  subst (λ (p : PositionEntry). InLimit p.net_position) (sym same) (h _ f.in_table)
              | inr z ↦ subst InLimit (sym z) InLimit-zero
            ])
    ]

on_fill-InLimits :
    {t : RiskEngine} (stock : List ℕ) (side : Side) (q idx : ℕ)
    → find_or_create t stock ≡ (idx, t)
    → InLimits t
    → InLimit (fill side q (t.positions idx)).net_position
    → InLimits (on_fill t stock side q)
unfolding InLimits on_fill
on_fill-InLimits {t} stock side q idx e h filled k lt =
    let after = fill side q (t.positions idx) in
    let at_entry : InLimit (update t.positions idx after k).net_position =
      elim (Bool-cases (k == idx)) [
        | inl same ↦
            subst (λ n. InLimit (update t.positions idx after n).net_position)
              (sym ((==_iff _ _).0 same))
              (subst (λ (p : PositionEntry). InLimit p.net_position)
                (sym (update_self t.positions idx after)) filled)
        | inr ne ↦
            subst (λ (p : PositionEntry). InLimit p.net_position)
              (sym (update_ne t.positions after (ground arith))) (h k lt)
      ] in
    subst
      (λ (f : ℕ × RiskEngine).
        InLimit (update f.1.positions f.0 (fill side q (f.1.positions f.0)) k).net_position)
      (sym e) at_entry

-- An order that `check` accepts and that `on_fill` then fills, at most for its shares.
pub check-on_fill-InLimits :
    {r : RiskEngine} (o : Order) (q : ℕ)
    → IsValid r
    → InLimits r
    → (check r o).0 ≡ accepted
    → q ≤ o.quantity
    → InLimits (on_fill (check r o).1 o.stock o.side q)
unfolding InLimits
check-on_fill-InLimits {r} o q v h acc le =
    let t = (find_or_create r o.stock).1 in
    let idx = (find_or_create r o.stock).0 in
    let f = find_or_create_lem o.stock v in
    let admits = (check-accepted_iff r o).0 acc in
    let within = find_or_create-InLimits o.stock v h in
    let filled =
      fill-InLimit o.side (t.positions idx) o.quantity q (within idx f.in_table) admits.passes.limit
        le in
    subst (λ s. InLimits (on_fill s o.stock o.side q)) (sym (check-after r o acc))
      (on_fill-InLimits o.stock o.side q idx (find_again f) within filled)
