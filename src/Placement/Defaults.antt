-- ===== src/Placement/Defaults.antt =====
-- That a placement fills gaps and nothing else: `PodPlacement::apply` of src/placement.rs.
use postgres_restore_operato.Prelude.{
  ℕ, ◌≡◌, refl, ◌∙◌, ap, String, true, Option, none, some, List, [], ◌∷◌, ◌++◌, eq_refl, All, arith,
  if_case, is_empty, sym,
}
use postgres_restore_operato.Labels.{
  Labels, label, own_or, or_insert_all, label-or_insert_all, or_insert_all_twice,
}
use postgres_restore_operato.Placement.{
  Toleration, PodPlacement, PodTemplate, no_placement, same_toleration, same_text, same_number,
  has_toleration, push_missing, apply,
}

text_itself : (o : Option String) → same_text o o ≡ true
text_itself none = refl
text_itself (some a) = eq_refl a

number_itself : (o : Option ℕ) → same_number o o ≡ true
number_itself none = refl
number_itself (some a) = ground arith

same_itself : (t : Toleration) → same_toleration t t ≡ true
same_itself t = ground (
  arith,
  text_itself t.key,
  text_itself t.operator,
  text_itself t.effect,
  text_itself t.value,
  number_itself t.toleration_seconds,
)

kept_pushed :
    (t : Toleration) (ts others : List Toleration)
    → has_toleration t ts ≡ true
    → has_toleration t (ts ++ others) ≡ true
kept_pushed t [] others h = cc
kept_pushed t (s ∷ ts) others h = ground (arith, h, kept_pushed t ts others)

last_pushed : (t : Toleration) (ts : List Toleration) → has_toleration t (ts ++ t ∷ []) ≡ true
last_pushed t [] = ground (arith, same_itself t)
last_pushed t (s ∷ ts) = ground (arith, last_pushed t ts)

push_missing-keeps :
    (t : Toleration) (others ts : List Toleration)
    → has_toleration t ts ≡ true
    → has_toleration t (push_missing ts others) ≡ true
unfolding push_missing
push_missing-keeps t [] ts h = h
push_missing-keeps t (s ∷ others) ts h = push_missing-keeps t others _ (
    if_case (λ us. has_toleration t us ≡ true) (has_toleration s ts) _ _ (λ _. h)
      (λ _. kept_pushed t ts (s ∷ []) h))

abbrev AllThere : List Toleration → List Toleration → Type 0
AllThere ts others = All (λ t. has_toleration t ts ≡ true) others

push_missing-AllThere : (others ts : List Toleration) → AllThere (push_missing ts others) others
unfolding push_missing
push_missing-AllThere [] ts = tt
push_missing-AllThere (t ∷ others) ts = (
  push_missing-keeps t others _ (
      if_case (λ us. has_toleration t us ≡ true) (has_toleration t ts) _ _ (λ there. there)
        (λ _. last_pushed t ts)),
  push_missing-AllThere others _,
)

nothing_pushed : (ts others : List Toleration) → AllThere ts others → push_missing ts others ≡ ts
unfolding push_missing
nothing_pushed ts [] h = refl
nothing_pushed ts (t ∷ others) (h, rest) = rw h (nothing_pushed ts others rest)

push_missing_twice :
    (ts others : List Toleration)
    → push_missing (push_missing ts others) others ≡ push_missing ts others
push_missing_twice ts others = nothing_pushed _ others (push_missing-AllThere others ts)

no_labels : (labels others : Labels) → is_empty others ≡ true → or_insert_all labels others ≡ labels
unfolding or_insert_all
no_labels labels [] h = refl
no_labels labels (o ∷ others) h = cc

no_tolerations :
    (ts others : List Toleration) → is_empty others ≡ true → push_missing ts others ≡ ts
unfolding push_missing
no_tolerations ts [] h = refl
no_tolerations ts (o ∷ others) h = cc

-- The template with every part of the placement, empty or not.
abbrev stamp : PodPlacement → PodTemplate → PodTemplate
stamp p template = record {
  node_selector = or_insert_all template.node_selector p.node_selector;
  annotations = or_insert_all template.annotations p.annotations;
  tolerations = push_missing template.tolerations p.tolerations;
}

apply-stamp : (p : PodPlacement) (template : PodTemplate) → apply p template ≡ stamp p template
unfolding apply
apply-stamp p template =
    if_case (λ t. t ≡ stamp p template) (no_placement p) _ _
      (λ none_given.
        rw
          (
            no_labels template.node_selector p.node_selector (ground (arith, none_given)),
            no_labels template.annotations p.annotations (ground (arith, none_given)),
            no_tolerations template.tolerations p.tolerations (ground (arith, none_given)),
          )
          refl)
      (λ _. refl)

stamp_twice :
    (p : PodPlacement) (template : PodTemplate) → stamp p (stamp p template) ≡ stamp p template
stamp_twice p template =
    rw
      (
        or_insert_all_twice template.node_selector p.node_selector,
        or_insert_all_twice template.annotations p.annotations,
        push_missing_twice template.tolerations p.tolerations,
      )
      refl

-- Stamping a placement onto a pod template twice is stamping it once, and every selector and annotation
-- that the template has keeps its value: the placement's fill the gaps.
pub apply_lem :
    (p : PodPlacement) (template : PodTemplate)
    → (apply p (apply p template) ≡ apply p template)
      × ((key : String)
          → (label key (apply p template).node_selector
              ≡ own_or (label key template.node_selector) (label key p.node_selector))
            × (label key (apply p template).annotations
                ≡ own_or (label key template.annotations) (label key p.annotations)))
apply_lem p template = (
  ap (apply p) (apply-stamp p template)
      ∙ (apply-stamp p (stamp p template)
          ∙ (stamp_twice p template ∙ sym (apply-stamp p template))),
  λ key. (
    ap (λ t. label key t.node_selector) (apply-stamp p template)
        ∙ label-or_insert_all key p.node_selector template.node_selector,
    ap (λ t. label key t.annotations) (apply-stamp p template)
        ∙ label-or_insert_all key p.annotations template.annotations,
  ),
)
