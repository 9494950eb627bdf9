-- ===== src/Files/Mounts.antt =====
-- The mounts that `_render_binding` of file_manager.py gives the environment of a job.
use Prim.Native.String.{String, ◌++◌ as ◌<>◌}
use Prim.Native.String.append
use safactory_server.Base.{
  Bool, true, not, none, some, List, [], ◌∷◌, ◌++◌, select, ◌≡◌, refl, ap, ◌∙◌, Bool-cases, inl,
  inr,
}
use mathlib.Core.List.{append-nil}
use package.text.Mathlib.TextEquality.{eq_iff}
use safactory_server.Json.{Json, text}
use safactory_server.Files.Sources.{behind_colon, mount_target, is_target}
use safactory_server.Files.Render.{rendered_mounts}

behind_own :
    (source target : String)
    → behind_colon target ≡ none
    → behind_colon (source <> (":" <> target)) ≡ some target
unfolding behind_colon
behind_own String.[] target h =
    ap behind_colon (
      append.nil (":" <> target)
      ∙ append.cons ":" String.[] target
      ∙ ap (String.◌∷◌ ":") (append.nil target))
    ∙ rw h refl
behind_own (String.◌∷◌ c s) target h =
    ap behind_colon (append.cons c s (":" <> target)) ∙ rw (behind_own s target h) refl

module _ (p : Json → Bool) where
  select_none : (xs : List Json) → select p (select (λ x. not (p x)) xs) ≡ []
  unfolding select
  select_none [] = refl
  select_none (x ∷ xs) = elim (Bool-cases (p x)) [
    | inl holds ↦ rw holds (select_none xs)
    | inr fails ↦ rw fails (rw fails (select_none xs))
  ]

  select_same : (xs : List Json) → select p (select p xs) ≡ select p xs
  unfolding select
  select_same [] = refl
  select_same (x ∷ xs) = elim (Bool-cases (p x)) [
    | inl holds ↦ rw holds (rw holds (ap (λ ys. x ∷ ys) (select_same xs)))
    | inr fails ↦ rw fails (select_same xs)
  ]

  select-append : (xs ys : List Json) → select p (xs ++ ys) ≡ select p xs ++ select p ys
  unfolding select
  select-append [] ys = refl
  select-append (x ∷ xs) ys = elim (Bool-cases (p x)) [
    | inl holds ↦ rw holds (ap (λ zs. x ∷ zs) (select-append xs ys))
    | inr fails ↦ rw fails (select-append xs ys)
  ]

-- The path of a mount ends at its target.
abbrev pub at_target : String → Json → Bool
at_target target m = is_target target (mount_target m)

own_mount :
    (source target : String)
    → behind_colon target ≡ none
    → at_target target (text (source <> (":" <> target))) ≡ true
unfolding mount_target
own_mount source target h = rw (behind_own source target h) ((eq_iff target target).1 refl)

-- For every target without a colon, every source and every list of mounts: at that target the rendered
-- mounts have the job's own results and nothing else, and away from it they have what the
-- configuration has, in the same order.
pub rendered_mounts_sole :
    (target source : String) (mounts : List Json)
    → behind_colon target ≡ none
    → (select (at_target target) (rendered_mounts target source mounts)
        ≡ text (source <> ":" <> target) ∷ [])
      × (select (λ m. not (at_target target m)) (rendered_mounts target source mounts)
          ≡ select (λ m. not (at_target target m)) mounts)
unfolding rendered_mounts
rendered_mounts_sole target source mounts h =
    let own = own_mount source target h in
    let others = select (λ m. not (at_target target m)) mounts in
    (
      select-append (at_target target) others (text (source <> (":" <> target)) ∷ [])
          ∙ ap (λ ms. ms ++ select (at_target target) (text (source <> (":" <> target)) ∷ []))
              (select_none (at_target target) mounts)
          ∙ (unfold select in rw own refl),
      select-append (λ m. not (at_target target m)) others (text (source <> (":" <> target)) ∷ [])
          ∙ ap
              (λ ms.
                ms
                ++ select (λ m. not (at_target target m)) (text (source <> (":" <> target)) ∷ []))
              (select_same (λ m. not (at_target target m)) mounts)
          ∙ (unfold select in rw own (append-nil others)),
    )
