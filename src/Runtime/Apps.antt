-- ===== src/Runtime/Apps.antt =====
-- main/app_runtime.c: `_app_runtime_required_apps_present`.
use micro_tech.Prelude.{
  ℕ, ◌≡◌, refl, ap, ◌∙◌, Bool, true, false, ◌&&◌, Option, none, some, List, [], ◌∷◌, map,
  if◌then◌else◌, arith, ◌==◌,
}

abbrev pub Text : Type 0
Text = List ℕ

-- `strcmp(a, b) == 0`
unfoldable pub same_text : Text → Text → Bool
same_text [] [] = true
same_text [] (b ∷ t) = false
same_text (a ∷ s) [] = false
same_text (a ∷ s) (b ∷ t) = a == b && same_text s t

-- What the check reads of `app_manager_app_desc_t`; `none` is NULL.
pub record App : Type 0 where
  pub id : Option Text
  pub root_page_id : Option Text

abbrev pub is_set : Option Text → Bool
is_set none = false
is_set (some t) = true

abbrev pub has_id : App → Text → Bool
has_id app required = elim app.id [ none ↦ false | some id ↦ same_text id required ]

-- The inner loop: `found` beside the required ids.
unfoldable pub mark : App → List Text → List Bool → List Bool
mark app [] found = found
mark app (id ∷ ids) [] = []
mark app (id ∷ ids) (f ∷ found) =
    (if has_id app id then is_set app.root_page_id else f) ∷ mark app ids found

-- The outer loop, over the list of the builtin apps.
unfoldable pub mark_all : List App → List Text → List Bool → List Bool
mark_all [] ids found = found
mark_all (app ∷ apps) ids found = mark_all apps ids (mark app ids found)

unfoldable pub all_found : List Bool → Bool
all_found [] = true
all_found (f ∷ found) = f && all_found found

unfoldable pub required_apps_present : List App → List Text → Bool
unfolding mark_all mark all_found same_text
required_apps_present apps ids = all_found (mark_all apps ids (map (λ _. false) ids))

-- The last app of the list with an id.
unfoldable pub last_app : Text → List App → Option App
last_app id [] = none
last_app id (app ∷ apps) = elim (last_app id apps) [
  | some later ↦ some later
  | none ↦ if has_id app id then some app else none
]

-- Whether that app, if there is one, has a root page.
abbrev pub has_root_page : Bool → Option App → Bool
has_root_page before none = before
has_root_page before (some app) = is_set app.root_page_id

abbrev pub all_served : List App → List Text → Bool
all_served apps [] = true
all_served apps (id ∷ ids) = has_root_page false (last_app id apps) && all_served apps ids

mark_all_nil : (apps : List App) (found : List Bool) → mark_all apps [] found ≡ found
unfolding mark_all mark
mark_all_nil [] found = refl
mark_all_nil (app ∷ apps) found = mark_all_nil apps found

has_root_page_cons :
    (app : App) (apps : List App) (id : Text) (f : Bool)
    → has_root_page (if has_id app id then is_set app.root_page_id else f) (last_app id apps)
      ≡ has_root_page f (last_app id (app ∷ apps))
unfolding last_app
has_root_page_cons app apps id f = ground arith

-- Each id has a mark of its own.
mark_all_cons :
    (apps : List App) (id : Text) (ids : List Text) (f : Bool) (found : List Bool)
    → mark_all apps (id ∷ ids) (f ∷ found)
      ≡ has_root_page f (last_app id apps) ∷ mark_all apps ids found
unfolding mark_all mark
mark_all_cons [] id ids f found = unfold last_app in refl
mark_all_cons (app ∷ apps) id ids f found =
    mark_all_cons apps id ids _ (mark app ids found)
    ∙ ap (λ (b : Bool). b ∷ mark_all apps ids (mark app ids found))
        (has_root_page_cons app apps id f)

-- The check passes exactly when for each required id there is a builtin app with that id, and the
-- last one of them in the list has a root page: an earlier app with the same id does not count.
pub required_apps_present_lem :
    (apps : List App) (ids : List Text) → required_apps_present apps ids ≡ all_served apps ids
unfolding required_apps_present
required_apps_present_lem apps [] = rw (mark_all_nil apps []) (unfold all_found in refl)
required_apps_present_lem apps (id ∷ ids) =
    ap all_found (mark_all_cons apps id ids false (map (λ _. false) ids))
    ∙ ap (λ (b : Bool). has_root_page false (last_app id apps) && b)
        (required_apps_present_lem apps ids)
