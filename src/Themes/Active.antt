-- ===== src/Themes/Active.antt =====
-- Which theme is the active one.
use express_nest_blueprint.Base.{
  ℕ, ◌≡◌, ◌≢◌, ◌↔◌, refl, sym, ◌∙◌, true, false, Option, none, some, arith, Bool-cases, inl, inr,
  is_some,
}
use express_nest_blueprint.Guards.{JwtPayload}
use express_nest_blueprint.Themes.{
  ThemeData, ThemeTable, IsTable, update, delete, with_published_at, may_update, activates,
}

module _ {S : Type 0} (table : ThemeTable S) (law : IsTable table) where
  -- No two themes are active.
  pub record AtMostOne (s : S) : Type 0 where
    pub same : (i j : ℕ) → table.active s i ≡ some true → table.active s j ≡ some true → i ≡ j

  with_published_at-active :
      (d : ThemeData) (now : ℕ) → (with_published_at d now).is_active ≡ d.is_active
  unfolding with_published_at
  with_published_at-active d now = ground arith

  -- After an activation by someone who may, a theme is active exactly if it is that theme, and is there.
  activated :
      (id : ℕ) (d : ThemeData) (u : Option JwtPayload) (now : ℕ) (s : S) (j : ℕ)
      → may_update u ≡ true
      → activates d.is_active ≡ true
      → table.active (update table id d u now s).1 j ≡ some true
      → (id ≡ j) × (is_some (table.active s j) ≡ true)
  unfolding update
  activated id d u now s j may act h = ground (
    arith,
    may,
    act,
    h,
    with_published_at-active d now,
    law.active-update_row id (with_published_at d now) (table.deactivate_all s) j,
    law.active-deactivate_all s j,
  )

  kept :
      (id : ℕ) (d : ThemeData) (u : Option JwtPayload) (now : ℕ) (s : S) (j : ℕ)
      → activates d.is_active ≡ false
      → table.active (update table id d u now s).1 j ≡ some true
      → table.active s j ≡ some true
  unfolding update
  kept id d u now s j act h = ground (
    arith,
    act,
    h,
    with_published_at-active d now,
    law.active-update_row id (with_published_at d now) s j,
  )

  refused :
      (id : ℕ) (d : ThemeData) (u : Option JwtPayload) (now : ℕ) (s : S)
      → may_update u ≡ false
      → (update table id d u now s).1 ≡ s
  unfolding update
  refused id d u now s may = rw may refl

  -- Whoever updates whichever theme with whichever fields: where no two themes are active before, none
  -- are after.
  pub update-AtMostOne :
      (id : ℕ) (d : ThemeData) (u : Option JwtPayload) (now : ℕ) (s : S)
      → AtMostOne s
      → AtMostOne (update table id d u now s).1
  update-AtMostOne id d u now s one = record {
    same = λ i j hi hj. elim (Bool-cases (may_update u)) [
      | inr barred ↦
          one.same i j (rw (refused id d u now s barred) at hi)
            (rw (refused id d u now s barred) at hj)
      | inl may ↦ elim (Bool-cases (activates d.is_active)) [
        | inl act ↦
            let (a, _) = activated id d u now s i may act hi in
            let (b, _) = activated id d u now s j may act hj in sym a ∙ b
        | inr act ↦ one.same i j (kept id d u now s i act hi) (kept id d u now s j act hj)
      ]
    ];
  }

  -- Activating a theme that is not there leaves no theme active at all.
  pub activate_missing :
      (id : ℕ) (d : ThemeData) (u : Option JwtPayload) (now : ℕ) (s : S) (j : ℕ)
      → may_update u ≡ true
      → activates d.is_active ≡ true
      → table.active s id ≡ none
      → table.active (update table id d u now s).1 j ≢ some true
  activate_missing id d u now s j may act missing h =
      let (same, there) = activated id d u now s j may act h in ground (arith, same, there, missing)

  -- No delete, whoever asks for it, takes away the active theme or makes another one active.
  pub delete_keeps_active :
      (id : ℕ) (u : Option JwtPayload) (s : S) (j : ℕ)
      → (table.active (delete table id u s).1 j ≡ some true) ↔ (table.active s j ≡ some true)
  unfolding delete
  delete_keeps_active id u s j = ground (arith, law.active-delete_row id s j)
