-- ===== src/Retrieval/Selection.antt =====
-- Which harvesters a retrieval builds: `_build_harvesters` of
-- app/services/retrieval/retrieval_service.py.
use svp_harvester.Prelude.{
  String, Bool, true, false, ◌&&◌, ◌||◌, Option, some, List, [], ◌∷◌, any, ◌==◌, string_eq, ◌≡◌,
  refl, ap, ◌∙◌, arith, Bool-cases, inl, inr, eq→path, ◌⊎◌, cond,
}
use svp_harvester.Retrieval.{Source, is_selected, put, build_harvesters}

abbrev pub has_harvester : String → List (String × Source) → Bool
has_harvester name entries = any (λ (e : String × Source). e.0 == name) entries

absorb : (a b : Bool) → (a || b) ≡ (a || (a || b))
absorb a b = ground arith

or_comm : (a b : Bool) → (a || b) ≡ (b || a)
or_comm a b = ground arith

and_false : (a b : Bool) → (a && false) ≡ (b && false)
and_false a b = ground arith

swap : (a b c : Bool) → (a || (b || c)) ≡ (b || (a || c))
swap a b c = ground arith

has_harvester-put :
    (name key : String) (source : Source) (entries : List (String × Source))
    → has_harvester name (put key source entries) ≡ (key == name || has_harvester name entries)
has_harvester-put name key source [] = refl
has_harvester-put name key source (e ∷ es) =
    go (Bool-cases (e.0 == key)) (has_harvester-put name key source es)
  where
    go :
        ((e.0 == key) ≡ true) ⊎ ((e.0 == key) ≡ false)
        → has_harvester name (put key source es) ≡ (key == name || has_harvester name es)
        → has_harvester name (cond (e.0 == key) ((key, source) ∷ es) (e ∷ put key source es))
          ≡ (key == name || (e.0 == name || has_harvester name es))
    go (inl same) ih =
        rw (same, ap (λ t. t == name) (eq→path e.0 key same))
          (absorb (key == name) (has_harvester name es))
    go (inr differ) ih = rw (differ, ih) (swap (e.0 == name) (key == name) (has_harvester name es))

has_harvester-cond :
    (name key : String) (source : Source) (entries : List (String × Source)) (chosen : Bool)
    → has_harvester name (cond chosen (put key source entries) entries)
      ≡ (has_harvester name entries || (chosen && key == name))
has_harvester-cond name key source entries true =
    has_harvester-put name key source entries ∙ or_comm (key == name) (has_harvester name entries)
has_harvester-cond name key source entries false = ground arith

is_selected-same :
    (harvesters_list : Option (List String)) (key name : String)
    → (is_selected harvesters_list key && key == name)
      ≡ (is_selected harvesters_list name && key == name)
is_selected-same harvesters_list key name = elim (Bool-cases (key == name)) [
  | inl same ↦ ap (λ t. is_selected harvesters_list t && key == name) (eq→path key name same)
  | inr differ ↦
      rw differ (and_false (is_selected harvesters_list key) (is_selected harvesters_list name))
]

regroup : (a c e h : Bool) → ((a || (c && e)) || (c && h)) ≡ (a || (c && (e || h)))
regroup a c e h = ground arith

build_harvesters-has :
    (harvesters_list : Option (List String)) (configs entries : List (String × Source))
    (name : String)
    → has_harvester name (build_harvesters harvesters_list configs entries) ≡ (
        has_harvester name entries
        || (is_selected harvesters_list name && has_harvester name configs))
unfolding build_harvesters
build_harvesters-has harvesters_list [] entries name = ground arith
build_harvesters-has harvesters_list (config ∷ configs) entries name =
    let chosen = is_selected harvesters_list config.0 in
    let rest = is_selected harvesters_list name && has_harvester name configs in
    build_harvesters-has harvesters_list configs
      (cond chosen (put config.0 config.1 entries) entries) name
    ∙ ap (λ b. b || rest) (has_harvester-cond name config.0 config.1 entries chosen)
    ∙ ap (λ b. (has_harvester name entries || b) || rest)
        (is_selected-same harvesters_list config.0 name)
    ∙ regroup (has_harvester name entries) (is_selected harvesters_list name) (config.0 == name)
        (has_harvester name configs)

-- For any requested list of harvesters, any configured harvesters and any name: a harvester of that
-- name is built exactly when it is configured and no list is requested or the list holds it. So an
-- empty list, unlike no list, builds no harvester.
pub build_harvesters-IsSelected :
    (harvesters_list : Option (List String)) (configs : List (String × Source)) (name : String)
    → (has_harvester name (build_harvesters harvesters_list configs [])
        ≡ (is_selected harvesters_list name && has_harvester name configs))
      × (build_harvesters (some []) configs [] ≡ [])
unfolding build_harvesters
build_harvesters-IsSelected harvesters_list [] name =
    (build_harvesters-has harvesters_list [] [] name, refl)
build_harvesters-IsSelected harvesters_list (config ∷ configs) name = (
  build_harvesters-has harvesters_list (config ∷ configs) [] name,
  (build_harvesters-IsSelected harvesters_list configs name).1,
)
