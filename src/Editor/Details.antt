-- ===== src/Editor/Details.antt =====
-- `_parse_line_dicts` of blueprints/caterer/requests.py. What `json.loads` makes of the field, or of
-- "[]" where it is empty, is an argument, down to the entries of a list.
use les_traiteurs_engages_v.Base.{List, Option, [], none, some, ◌∷◌}
use les_traiteurs_engages_v.Pricing.Lines.{LineDict}

-- An entry that is a dictionary of plain values, and any other.
pub data LineEntry : Type 0 where
  flat : LineDict → LineEntry
  nested : LineEntry

pub data Json : Type 0 where
  list : List LineEntry → Json
  no_list : Json

-- The dictionaries, if all entries are.
unfoldable pub all_flat : List LineEntry → Option (List LineDict)
all_flat [] = some []
all_flat (nested ∷ es) = none
all_flat (flat d ∷ es) = elim (all_flat es) [ none ↦ none | some ds ↦ some (d ∷ ds) ]

abbrev listed : Option (List LineDict) → List LineDict
listed none = []
listed (some ds) = ds

-- `none` is the `JSONDecodeError`.
abbrev pub parse_line_dicts : Option Json → List LineDict
parse_line_dicts none = []
parse_line_dicts (some no_list) = []
parse_line_dicts (some (list es)) = listed (all_flat es)
