-- ===== src/Keys/Scope.antt =====
-- src/kvtsjl/scope.py: a logical key prefix of kind/id segments, in order.
use kvtsjl.Prelude.{not, List, [], ◌∷◌, ◌++◌, map, filter, contains}
use kvtsjl.Prelude.Dict.{Dict}
use kvtsjl.Errors.{scope_error, Result, ok, raise}
use kvtsjl.Keys.Text.{Text, text_eq, join_text}

pub record Segment : Type 0 where
  pub kind : Text
  pub id : Text

pub record Scope : Type 0 where
  pub segments : List Segment

abbrev pub segments_of : Dict Text Text → List Segment
segments_of [] = []
segments_of ((kind, id) ∷ kinds_to_ids) = record { kind = kind; id = id } ∷ segments_of kinds_to_ids

-- `Scope.of(**kinds_to_ids)`
abbrev pub scope_of : Dict Text Text → Scope
scope_of kinds_to_ids = record { segments = segments_of kinds_to_ids }

abbrev pub kinds : Scope → List Text
kinds scope = map (λ segment. segment.kind) scope.segments

abbrev pub accept : {A : Type 0} → List Text → A → Result A
accept [] a = ok a
accept (_ ∷ _) a = raise scope_error

-- `scope.only(*wanted)`
unfoldable pub only : Scope → List Text → Result Scope
only scope wanted =
    accept (filter (λ kind. not (contains (kinds scope) kind)) wanted)
      (record { segments = filter (λ segment. contains wanted segment.kind) scope.segments })

-- `scope.extend(kind, id)`, and `scope / (kind, id)`
unfoldable pub extend : Scope → Text → Text → Scope
extend scope kind id = record { segments = scope.segments ++ record { kind = kind; id = id } ∷ [] }

-- `scope.child(**kinds_to_ids)`
unfoldable pub child : Scope → Dict Text Text → Scope
child scope kinds_to_ids = record { segments = scope.segments ++ segments_of kinds_to_ids }

-- `scope / other`
unfoldable pub append : Scope → Scope → Scope
append scope other = record { segments = scope.segments ++ other.segments }

-- `scope.path_display()`
unfoldable pub path_display : Scope → Text
unfolding join_text
path_display scope =
    join_text (47 ∷ []) (map (λ segment. segment.kind ++ 47 ∷ segment.id) scope.segments)
