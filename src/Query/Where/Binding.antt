-- ===== src/Query/Where/Binding.antt =====
-- The conditions of WhereBuilder, with each placeholder replaced by its value.
use mathlib.Core.List.{map-append, append_assoc, append-nil}
use mathlib.Core.Path.{subst, ap₂}
use express_nest_blueprint.Base.{
  ℕ, suc, ◌+◌, ◌≡◌, refl, ap, sym, ◌∙◌, String, Option, none, some, List, [], ◌∷◌, ◌++◌, map,
  get_elem?, length, length-append, arith, Bool-cases, inl, inr, length-map,
}
use express_nest_blueprint.Base.Map.{Map}
use express_nest_blueprint.Query.Sql.{raw, join, intercalate}
use express_nest_blueprint.Query.Where.{
  Where, Built, object, array, WhereCondition, SearchOption, QueryWithPaginationOptions, Param,
  value, is_wanted, object_conditions, array_conditions, search_condition, build_object_conditions,
  build_array_conditions, build_search_conditions, search_conditions, build_where_conditions,
}
use express_nest_blueprint.Query.Inlined.{
  words, bind_query, At, in_object, in_array, in_search, of_filter, of_search, filter_values,
  search_values, wanted_pattern, inlined_where,
}

pub map-intercalate {ℓ κ} :
    {A : Type ℓ} {B : Type κ} (f : A → B) (sep : A) (qs : List (List A))
    → map f (intercalate sep qs) ≡ intercalate (f sep) (map (map f) qs)
unfolding intercalate
map-intercalate f sep [] = refl
map-intercalate f sep (q ∷ []) = refl
map-intercalate f sep (q ∷ r ∷ qs) =
    map-append f q (sep ∷ intercalate sep (r ∷ qs))
    ∙ ap (λ t. map f q ++ f sep ∷ t) (map-intercalate f sep (r ∷ qs))

append_nil_left {ℓ} : {A : Type ℓ} (xs ys : List A) → xs ++ ys ≡ [] → xs ≡ []
append_nil_left [] ys h = refl
append_nil_left (x ∷ xs) ys h = cc

append_nil_right {ℓ} : {A : Type ℓ} (xs ys : List A) → xs ++ ys ≡ [] → ys ≡ []
append_nil_right [] ys h = h
append_nil_right (x ∷ xs) ys h = cc

module _ {V : Type 0} where
  pub At-append :
      (P : List (Param V)) (i : ℕ) (xs ys : List (Param V))
      → At P i (xs ++ ys)
      → At P i xs × At P (i + length xs) ys
  At-append P i [] ys h = (tt, subst (λ (k : ℕ). At P k ys) (omega arith) h)
  At-append P i (x ∷ xs) ys (h, hs) =
      let (here, later) = At-append P (suc i) xs ys hs in
      ((h, here), subst (λ (k : ℕ). At P k ys) (omega arith) later)

  get_elem?-append :
      (pre : List (Param V)) (v : Param V) (vs : List (Param V))
      → get_elem? (pre ++ v ∷ vs) (length pre) ≡ some v
  get_elem?-append [] v vs = refl
  get_elem?-append (x ∷ pre) v vs = get_elem?-append pre v vs

  pub At-all : (pre vs : List (Param V)) → At (pre ++ vs) (length pre) vs
  At-all pre [] = tt
  At-all pre (v ∷ vs) = (
    get_elem?-append pre v vs,
    subst (λ (l : List (Param V)). At l (suc (length pre)) vs) (append_assoc pre (v ∷ []) vs)
        (subst (λ (k : ℕ). At ((pre ++ v ∷ []) ++ vs) k vs)
          (omega (arith, length-append pre (v ∷ []))) (At-all (pre ++ v ∷ []) vs)),
  )

  module _ (mappings : Map String) where
    object_conditions_state :
        (es : List (String × V)) (params : List (Param V)) (index : ℕ)
        → ((object_conditions mappings es params index).1
            ≡ params ++ map (λ (e : String × V). value e.1) es)
          × ((object_conditions mappings es params index).2 ≡ index + length es)
    unfolding object_conditions
    object_conditions_state [] params index = (sym (append-nil params), omega arith)
    object_conditions_state ((k, v) ∷ es) params index =
        let (p, i) = object_conditions_state es (params ++ value v ∷ []) (suc index) in
        (p ∙ append_assoc params (value v ∷ []) _, omega (arith, i))

    object_conditions_bind :
        (es : List (String × V)) (params P : List (Param V)) (index : ℕ)
        → At P index (map (λ (e : String × V). value e.1) es)
        → map (bind_query P) (object_conditions mappings es params (suc index)).0
          ≡ map (in_object mappings) es
    unfolding object_conditions
    object_conditions_bind [] params P index h = refl
    object_conditions_bind ((k, v) ∷ es) params P index (h, hs) =
        cc (h, object_conditions_bind es (params ++ value v ∷ []) P (suc index) hs)

    array_conditions_state :
        (cs : List (WhereCondition V)) (params : List (Param V)) (index : ℕ)
        → ((array_conditions mappings cs params index).1
            ≡ params ++ map (λ (c : WhereCondition V). value c.value) cs)
          × ((array_conditions mappings cs params index).2 ≡ index + length cs)
    unfolding array_conditions
    array_conditions_state [] params index = (sym (append-nil params), omega arith)
    array_conditions_state (c ∷ cs) params index =
        let (p, i) = array_conditions_state cs (params ++ value c.value ∷ []) (suc index) in
        (p ∙ append_assoc params (value c.value ∷ []) _, omega (arith, i))

    array_conditions_bind :
        (cs : List (WhereCondition V)) (params P : List (Param V)) (index : ℕ)
        → At P index (map (λ (c : WhereCondition V). value c.value) cs)
        → map (bind_query P) (array_conditions mappings cs params (suc index)).0
          ≡ map (in_array mappings) cs
    unfolding array_conditions
    array_conditions_bind [] params P index h = refl
    array_conditions_bind (c ∷ cs) params P index (h, hs) =
        cc (h, array_conditions_bind cs (params ++ value c.value ∷ []) P (suc index) hs)

    search_fields_bind :
        (fields : List String) (term : String) (P : List (Param V)) (index : ℕ)
        → get_elem? P index ≡ some (wanted_pattern term)
        → map (bind_query P) (map (search_condition mappings (suc index)) fields)
          ≡ map (in_search mappings term) fields
    unfolding search_condition
    search_fields_bind [] term P index h = refl
    search_fields_bind (f ∷ fs) term P index h = cc (h, search_fields_bind fs term P index h)

    wanted_bind :
        (s : SearchOption) (P : List (Param V)) (index : ℕ)
        → get_elem? P index ≡ some (wanted_pattern s.term)
        → bind_query P (
            raw "(" ∷ join " OR " (map (search_condition mappings (suc index)) s.fields)
            ++ raw ")" ∷ [])
          ≡ words "(" ∷ intercalate (words " OR ") (map (in_search mappings s.term) s.fields)
            ++ words ")" ∷ []
    wanted_bind s P index h =
        simp (map-append, map-intercalate, search_fields_bind s.fields s.term P index h)

    search_bind :
        (o : Option SearchOption) (params P : List (Param V)) (index : ℕ)
        → At P index (search_values o)
        → map (bind_query P) (build_search_conditions mappings o params (suc index)).0
          ≡ of_search mappings o
    unfolding build_search_conditions
    search_bind none params P index h = refl
    search_bind (some s) params P index h = elim (Bool-cases (is_wanted s)) [
      | inl w ↦
          rw (w, search_conditions)
            (ap (λ q. q ∷ []) (wanted_bind s P index (let (found, _) = rw w at h in found)))
      | inr n ↦ rw (n, search_conditions)
    ]

    search_state :
        (o : Option SearchOption) (params : List (Param V)) (index : ℕ)
        → ((build_search_conditions mappings o params index).1 ≡ params ++ search_values o)
          × ((build_search_conditions mappings o params index).2
              ≡ index + length (search_values {V = V} o))
    unfolding build_search_conditions
    search_state none params index = (sym (append-nil params), omega arith)
    search_state (some s) params index = elim (Bool-cases (is_wanted s)) [
      | inl w ↦ rw (w, search_conditions) (refl, omega arith)
      | inr n ↦ rw (n, search_conditions) (sym (append-nil params), omega arith)
    ]

    abbrev filter_built : Option (Where V) → Built V
    filter_built f =
        let (objects, params₁, index₁) = build_object_conditions mappings f [] 1 in
        let (arrays, params₂, index₂) = build_array_conditions mappings f params₁ index₁ in
        (objects ++ arrays, params₂, index₂)

    filter_state :
        (f : Option (Where V))
        → ((filter_built f).1 ≡ filter_values f)
          × ((filter_built f).2 ≡ suc (length (filter_values f)))
    unfolding build_object_conditions build_array_conditions
    filter_state none = (refl, refl)
    filter_state (some (object es)) =
        let (p, i) = object_conditions_state es [] 1 in
        (p, omega (arith, i, length-map (λ (e : String × V). value e.1) es))
    filter_state (some (array cs)) =
        let (p, i) = array_conditions_state cs [] 1 in
        (p, omega (arith, i, length-map (λ (c : WhereCondition V). value c.value) cs))

    filter_bind :
        (f : Option (Where V)) (P : List (Param V))
        → At P 0 (filter_values f)
        → map (bind_query P) (filter_built f).0 ≡ of_filter mappings f
    unfolding build_object_conditions build_array_conditions
    filter_bind none P h = refl
    filter_bind (some (object es)) P h = simp append-nil (object_conditions_bind es [] P 0 h)
    filter_bind (some (array cs)) P h = array_conditions_bind cs [] P 0 h

    where_built :
        (o : QueryWithPaginationOptions V)
        → build_where_conditions mappings o [] 1 ≡ (
            let searches =
              build_search_conditions mappings o.search
                (filter_values o.filter)
                (suc (length (filter_values o.filter))) in
            ((filter_built o.filter).0 ++ searches.0, searches.1, searches.2))
    unfolding build_where_conditions
    where_built o = let (p, i) = filter_state o.filter in rw (p, i, ← append_assoc) refl

    -- The params of WhereBuilder are the values of the filter and the search, in order, and the next
    -- index is past them.
    pub where_state :
        (o : QueryWithPaginationOptions V)
        → ((build_where_conditions mappings o [] 1).1
            ≡ filter_values o.filter ++ search_values o.search)
          × ((build_where_conditions mappings o [] 1).2
              ≡ suc (length (filter_values o.filter ++ search_values o.search)))
    where_state o =
        let (p, i) =
          search_state o.search (filter_values o.filter) (suc (length (filter_values o.filter))) in
        rw (where_built o)
          (p, omega (arith, i, length-append (filter_values o.filter) (search_values o.search)))

    pub where_bind :
        (o : QueryWithPaginationOptions V) (P : List (Param V))
        → At P 0 (filter_values o.filter ++ search_values o.search)
        → map (bind_query P) (build_where_conditions mappings o [] 1).0 ≡ inlined_where mappings o
    unfolding inlined_where
    where_bind o P h =
        let (here, later) = At-append P 0 (filter_values o.filter) (search_values o.search) h in
        rw (where_built o, map-append)
          (ap₂ (λ a b. a ++ b) (filter_bind o.filter P here)
            (search_bind o.search (filter_values o.filter) P (length (filter_values o.filter))
              (subst (λ (k : ℕ). At P k (search_values o.search)) (omega arith) later)))

    object_conditions_empty :
        (es : List (String × V)) (params : List (Param V)) (index : ℕ)
        → (object_conditions mappings es params index).0 ≡ []
        → (object_conditions mappings es params index).2 ≡ index
    unfolding object_conditions
    object_conditions_empty [] params index h = refl
    object_conditions_empty (e ∷ es) params index h = cc

    array_conditions_empty :
        (cs : List (WhereCondition V)) (params : List (Param V)) (index : ℕ)
        → (array_conditions mappings cs params index).0 ≡ []
        → (array_conditions mappings cs params index).2 ≡ index
    unfolding array_conditions
    array_conditions_empty [] params index h = refl
    array_conditions_empty (c ∷ cs) params index h = cc

    filter_empty : (f : Option (Where V)) → (filter_built f).0 ≡ [] → (filter_built f).2 ≡ 1
    unfolding build_object_conditions build_array_conditions
    filter_empty none h = refl
    filter_empty (some (object es)) h = object_conditions_empty es [] 1 (sym (append-nil _) ∙ h)
    filter_empty (some (array cs)) h = array_conditions_empty cs [] 1 h

    search_empty :
        (o : Option SearchOption) (params : List (Param V)) (index : ℕ)
        → (build_search_conditions mappings o params index).0 ≡ []
        → (build_search_conditions mappings o params index).2 ≡ index
    unfolding build_search_conditions search_conditions
    search_empty none params index h = refl
    search_empty (some s) params index h = ground arith

    -- Where there is no condition, no index is used up.
    pub where_empty :
        (o : QueryWithPaginationOptions V)
        → (build_where_conditions mappings o [] 1).0 ≡ []
        → (build_where_conditions mappings o [] 1).2 ≡ 1
    where_empty o h =
        let e = rw (where_built o) at h in
        let (p, i) = filter_state o.filter in
        rw (where_built o) (
          search_empty o.search (filter_values o.filter) (suc (length (filter_values o.filter)))
            (append_nil_right _ _ e)
          ∙ (sym i ∙ filter_empty o.filter (append_nil_left _ _ e)))
