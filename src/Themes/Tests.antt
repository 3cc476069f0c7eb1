-- ===== src/Themes/Tests.antt =====
-- Two themes, of which the first is active.
use express_nest_blueprint.Base.{
  ℕ, ◌≡◌, refl, Bool, true, false, Option, none, some, arith, ◌==◌, if◌then◌else◌,
}
use express_nest_blueprint.Base.Text.{codes}
use express_nest_blueprint.Guards.{admin, JwtPayload}
use express_nest_blueprint.Themes.{
  ThemeData, ThemeTable, IsTable, done, forbidden, published, update, delete, deactivated,
  overwritten,
}
use express_nest_blueprint.Themes.Active.{AtMostOne, update-AtMostOne}

abbrev table : ThemeTable (ℕ → Option Bool)
table = record {
  active = λ s j. s j;
  deactivate_all = λ s j. deactivated (s j);
  update_row = λ i d s j. if i == j then overwritten d.is_active (s j) else s j;
  delete_row = λ i s j. if i == j then none else s j;
}

table-IsTable : IsTable table
table-IsTable = record {
  active-deactivate_all = λ s j. refl;
  active-update_row = λ i d s j. refl;
  active-delete_row = λ i s j. refl;
}

abbrev themes : ℕ → Option Bool
themes j = if j == 1 then some true else if j == 2 then some false else none

abbrev activation : ThemeData
activation = record { is_active = some true; status = some published; published_at = none }

abbrev editor : Option JwtPayload
editor = some (record { sub = 3; email = codes "ed@a.io"; role = admin })

theme_tests :
    ((update table 2 activation editor 50 themes).1 1 ≡ some false)
    × ((update table 2 activation editor 50 themes).1 2 ≡ some true)
    × ((update table 9 activation editor 50 themes).0 ≡ done false)
    × ((delete table 1 none themes).0 ≡ forbidden)
    × ((delete table 2 editor themes).0 ≡ forbidden)
    × ((delete table 2 none themes).1 2 ≡ none)
unfolding update delete
theme_tests = (refl, refl, refl, refl, refl, refl)

themes-AtMostOne : AtMostOne table table-IsTable themes
themes-AtMostOne = record { same = λ i j hi hj. ground (arith, hi, hj) }

update-AtMostOne_example :
    AtMostOne table table-IsTable (update table 2 activation editor 50 themes).1
update-AtMostOne_example =
    update-AtMostOne table table-IsTable 2 activation editor 50 themes themes-AtMostOne
