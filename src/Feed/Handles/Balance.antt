-- ===== src/Feed/Handles/Balance.antt =====
-- The ledger of the handles: what was held and taken against what was given back and is held.
use mathlib.Core.List.{append_assoc}
use tickpipe.Base.{◌≡◌, refl, sym, ap, ◌∙◌, List, [], ◌∷◌, ◌++◌}
use tickpipe.Feed.Handles.{Handle, descriptor, file, mapping, Call, acquire, release}

pub data Kind : Type 0 where
  descriptors files mappings : Kind

abbrev pub of : Kind → Handle → List Handle
of descriptors (descriptor n) = descriptor n ∷ []
of descriptors (file n) = []
of descriptors (mapping a n) = []
of files (descriptor n) = []
of files (file n) = file n ∷ []
of files (mapping a n) = []
of mappings (descriptor n) = []
of mappings (file n) = []
of mappings (mapping a n) = mapping a n ∷ []

abbrev pub all_of : Kind → List Handle → List Handle
all_of k [] = []
all_of k (h ∷ hs) = of k h ++ all_of k hs

abbrev pub taken : Kind → List Call → List Handle
taken k [] = []
taken k (acquire h ∷ cs) = of k h ++ taken k cs
taken k (release h ∷ cs) = taken k cs

abbrev pub given : Kind → List Call → List Handle
given k [] = []
given k (acquire h ∷ cs) = given k cs
given k (release h ∷ cs) = of k h ++ given k cs

taken-append : (k : Kind) (cs ds : List Call) → taken k (cs ++ ds) ≡ taken k cs ++ taken k ds
taken-append k [] ds = refl
taken-append k (acquire h ∷ cs) ds =
    ap (λ (hs : List Handle). of k h ++ hs) (taken-append k cs ds)
    ∙ sym (append_assoc (of k h) (taken k cs) (taken k ds))
taken-append k (release h ∷ cs) ds = taken-append k cs ds

given-append : (k : Kind) (cs ds : List Call) → given k (cs ++ ds) ≡ given k cs ++ given k ds
given-append k [] ds = refl
given-append k (acquire h ∷ cs) ds = given-append k cs ds
given-append k (release h ∷ cs) ds =
    ap (λ (hs : List Handle). of k h ++ hs) (given-append k cs ds)
    ∙ sym (append_assoc (of k h) (given k cs) (given k ds))

-- The handles of each kind are given back in the order in which they were taken, each as it was
-- taken, and those of the last list are left.
unfoldable pub Hands : List Handle → List Call → List Handle → Type 0
Hands held calls left = (k : Kind) → all_of k held ++ taken k calls ≡ given k calls ++ all_of k left

pub Hands-append :
    (held : List Handle) (cs : List Call) (mid : List Handle) (ds : List Call) (left : List Handle)
    → Hands held cs mid
    → Hands mid ds left
    → Hands held (cs ++ ds) left
unfolding Hands
Hands-append held cs mid ds left first second k =
    ap (λ (hs : List Handle). all_of k held ++ hs) (taken-append k cs ds)
    ∙ sym (append_assoc (all_of k held) (taken k cs) (taken k ds))
    ∙ ap (λ (hs : List Handle). hs ++ taken k ds) (first k)
    ∙ append_assoc (given k cs) (all_of k mid) (taken k ds)
    ∙ ap (λ (hs : List Handle). given k cs ++ hs) (second k)
    ∙ sym (append_assoc (given k cs) (given k ds) (all_of k left))
    ∙ ap (λ (hs : List Handle). hs ++ all_of k left) (sym (given-append k cs ds))

pub each_kind :
    (held : List Handle) (calls : List Call) (left : List Handle)
    → all_of descriptors held ++ taken descriptors calls
      ≡ given descriptors calls ++ all_of descriptors left
    → all_of files held ++ taken files calls ≡ given files calls ++ all_of files left
    → all_of mappings held ++ taken mappings calls ≡ given mappings calls ++ all_of mappings left
    → Hands held calls left
unfolding Hands
each_kind held calls left d f m descriptors = d
each_kind held calls left d f m files = f
each_kind held calls left d f m mappings = m
