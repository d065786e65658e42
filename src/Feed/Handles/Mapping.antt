-- ===== src/Feed/Handles/Mapping.antt =====
-- `ItchReplay::open` and `close`: what is held between the uses.
use tickpipe.Base.{ℕ, ◌≡◌, refl, sym, subst, Option, none, some, List, [], ◌∷◌, ◌++◌}
use tickpipe.Feed.Handles.{
  Handle, file, mapping, ItchReplay, closed, Answers, map_file, open_file, unmap, close_file, close,
  Use, opening, closing, apply_use, use_all,
}
use tickpipe.Feed.Handles.Balance.{Hands, each_kind, Hands-append}

abbrev mapping_of : Option ℕ → ℕ → List Handle
mapping_of none size = []
mapping_of (some address) size = mapping address size ∷ []

abbrev file_of : Option ℕ → List Handle
file_of none = []
file_of (some f) = file f ∷ []

-- What the object holds.
abbrev holds : ItchReplay → List Handle
holds r = mapping_of r.mapped r.mapped_size ++ file_of r.file

-- `open` is called only while nothing is mapped.
abbrev IsIdle : Use → ItchReplay → Type 0
IsIdle (opening a) r = r.mapped ≡ none
IsIdle closing r = Unit

unfoldable pub IsOrderly : List Use → ItchReplay → Type 0
IsOrderly [] r = Unit
IsOrderly (u ∷ us) r = IsIdle u r × IsOrderly us (apply_use u r).1

close-Hands : (r : ItchReplay) → Hands (holds r) (close r).0 []
unfolding close unmap close_file
close-Hands r = from r.mapped r.file r.mapped_size
  where
    from :
        (m f : Option ℕ) (size : ℕ)
        → Hands
            (mapping_of m size ++ file_of f)
            (close (record { mapped = m; mapped_size = size; file = f })).0
            []
    from none none size = each_kind _ _ _ refl refl refl
    from none (some f) size = each_kind _ _ _ refl refl refl
    from (some a) none size = each_kind _ _ _ refl refl refl
    from (some a) (some f) size = each_kind _ _ _ refl refl refl

holds-close : (r : ItchReplay) → holds (close r).1 ≡ []
unfolding close unmap close_file
holds-close r = from r.mapped r.file r.mapped_size
  where
    from :
        (m f : Option ℕ) (size : ℕ)
        → holds (close (record { mapped = m; mapped_size = size; file = f })).1 ≡ []
    from none none size = refl
    from none (some f) size = refl
    from (some a) none size = refl
    from (some a) (some f) size = refl

-- Whatever the system answers, `open` leaves the mapping at most.
open_file-Hands :
    (a : Answers) (r : ItchReplay)
    → r.mapped ≡ none
    → Hands (holds r) (open_file a r).1 (holds (open_file a r).2)
unfolding open_file map_file
open_file-Hands a r closed =
    subst
      (λ (m : Option ℕ).
        let r' : ItchReplay = record r { mapped = m } in
        Hands (holds r') (open_file a r').1 (holds (open_file a r').2))
      (sym closed) (from a.fd a.size a.address r.mapped_size r.file)
  where
    from :
        (fd size address : Option ℕ) (old : ℕ) (f : Option ℕ)
        → let r : ItchReplay = record { mapped = none; mapped_size = old; file = f } in
          let (_, calls, r') = open_file (record { fd = fd; size = size; address = address }) r in
          Hands (holds r) calls (holds r')
    from none size address old none = each_kind _ _ _ refl refl refl
    from none size address old (some f) = each_kind _ _ _ refl refl refl
    from (some d) none address old none = each_kind _ _ _ refl refl refl
    from (some d) none address old (some f) = each_kind _ _ _ refl refl refl
    from (some d) (some n) none old none = each_kind _ _ _ refl refl refl
    from (some d) (some n) none old (some f) = each_kind _ _ _ refl refl refl
    from (some d) (some n) (some a) old none = each_kind _ _ _ refl refl refl
    from (some d) (some n) (some a) old (some f) = each_kind _ _ _ refl refl refl

apply_use-Hands :
    (u : Use) (r : ItchReplay)
    → IsIdle u r
    → Hands (holds r) (apply_use u r).0 (holds (apply_use u r).1)
unfolding apply_use
apply_use-Hands (opening a) r idle = open_file-Hands a r idle
apply_use-Hands closing r idle =
    subst (λ (hs : List Handle). Hands (holds r) (close r).0 hs) (sym (holds-close r))
      (close-Hands r)

-- An `ItchReplay` is opened and closed any number of times, `open` being called only while
-- nothing is mapped, and then destroyed. Whatever `open`, `fstat` and `mmap` answer each time,
-- the descriptors, mappings and files that it held or took are given back, each as it was taken
-- and in that order, and nothing is left.
pub use_all-Hands :
    (us : List Use) (r : ItchReplay) → IsOrderly us r → Hands (holds r) (use_all us r) []
unfolding use_all IsOrderly
use_all-Hands [] r orderly = close-Hands r
use_all-Hands (u ∷ us) r (idle, orderly) =
    let (calls, r') = apply_use u r in
    Hands-append (holds r) calls (holds r') (use_all us r') [] (apply_use-Hands u r idle)
      (use_all-Hands us r' orderly)
