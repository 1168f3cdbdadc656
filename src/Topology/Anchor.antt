-- ===== src/Topology/Anchor.antt =====
-- What the checks of `Topology.__post_init__` in src/kvtsjl/keymap_algebra/topology.py are good for.
use kvtsjl.Prelude.{
  ◌≡◌, ◌≤◌, refl, true, false, not, is_some, List, [], ◌∷◌, ◌++◌, map, any, filter, filter-append,
  length, arith,
}
use kvtsjl.Errors.{ok}
use kvtsjl.Topology.Target.{Role, component, authority, dependent, fallback, Target}
use kvtsjl.Topology.Shape.{
  Topology, widen, with_role, first_with_role, is_empty, all_targets, the_authority, components,
  anchor, post_init,
}

module _ {W K V P Ver : Type 0} where
  first-filter :
      (role : Role) (ts : List (Target W K V P Ver))
      → is_some (first_with_role role ts) ≡ not (is_empty (filter (with_role role) ts))
  unfolding first_with_role
  first-filter role [] = refl
  first-filter role (t ∷ ts) = ground (arith, first-filter role ts)

  empty_right :
      (xs ys : List (Target W K V P Ver)) → is_empty (xs ++ ys) ≡ true → is_empty ys ≡ true
  empty_right [] ys h = h
  empty_right (x ∷ xs) ys h = absurd (ground arith)

  -- A part with no other role is a component.
  only_components :
      (ps : List (Target W K V P Ver))
      → is_empty ps ≡ false
      → any ps (with_role fallback) ≡ false
      → any ps (with_role dependent) ≡ false
      → is_empty (filter (with_role authority) ps) ≡ true
      → is_empty (filter (with_role component) ps) ≡ false
  only_components [] h f d a = absurd (ground arith)
  only_components (p ∷ ps) h f d a = ground arith

module _ {W K V O Ver : Type 0} (t : Topology W K V O Ver) where
  -- A topology that passes the checks has one authority at most, and an anchor: where it has no
  -- authority, it has a component, so `components[0]` is there.
  pub post_init-anchor :
      post_init t ≡ ok tt
      → (length (filter (with_role authority) (all_targets t)) ≤ 1) × (is_some (anchor t) ≡ true)
  unfolding post_init anchor the_authority components all_targets
  post_init-anchor h =
      let ws = map (widen t.up) t.targets in
      (
        ground (arith, h),
        ground (
          arith,
          h,
          first-filter authority (ws ++ t.parts),
          filter-append (with_role authority) ws t.parts,
          empty_right (filter (with_role authority) ws) (filter (with_role authority) t.parts),
          only_components t.parts,
        ),
      )
