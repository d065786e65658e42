-- ===== src/Feed/Handles/Tests.antt =====
-- Handles of the feed on concrete answers of the system.
use tickpipe.Base.{◌≡◌, refl, none, some, List, [], ◌∷◌}
use tickpipe.Feed.Handles.{
  Answers, Use, opening, closing, closed, map_file, open_file, unmap, close_file, close, apply_use,
  use_all, mapping,
}
use tickpipe.Feed.Handles.Balance.{mappings, taken, given, Hands}
use tickpipe.Feed.Handles.Mapping.{IsOrderly, use_all-Hands}

abbrev first : Answers
first = record { fd = some 3; size = some 4096; address = some 65536 }

abbrev second : Answers
second = record { fd = some 3; size = some 100; address = some 131072 }

abbrev unmappable : Answers
unmappable = record { fd = some 3; size = some 0; address = none }

-- A file that cannot be mapped, two that can, the second one left to the destructor.
abbrev session : List Use
session = opening unmappable ∷ opening first ∷ closing ∷ opening second ∷ []

use_all-Hands_example : Hands [] (use_all session closed) []
unfolding IsOrderly apply_use open_file map_file close unmap close_file closed
use_all-Hands_example = use_all-Hands session closed (refl, (refl, (tt, (refl, tt))))

-- A second `open` without a `close` loses the first mapping.
abbrev careless : List Use
careless = opening first ∷ opening second ∷ []

reopening_takes :
    taken mappings (use_all careless closed) ≡ mapping 65536 4096 ∷ mapping 131072 100 ∷ []
unfolding use_all apply_use open_file map_file close unmap close_file closed
reopening_takes = refl

reopening_gives : given mappings (use_all careless closed) ≡ mapping 131072 100 ∷ []
unfolding use_all apply_use open_file map_file close unmap close_file closed
reopening_gives = refl
