-- ===== src/HybridScenes/Cover.antt =====
-- What the loop over a page appends, and the matches among the first scenes of a catalogue.
use stasharr_portal.Prelude.Text.{eq_text}
use stasharr_portal.Prelude.{
  ℕ, ◌-◌, ◌*◌, ◌<◌, ◌≡◌, inl, inr, Bool, List, [], ◌∷◌, ◌++◌, leb, Bool-cases, length, take, drop,
  all, keep, sym, ap, ◌∙◌, arith, leb→le, length-append, take_all, append_nil_right, append_one,
  take-append, suc, ◌+◌, ◌≤◌, min, refl, false, length-take, take-drop, take_short, keep-append,
}
use stasharr_portal.HybridScenes.{CandidatePage, push_matches, Plan, Search, below}

module _ {Scene : Type 0} where
  -- The page of a catalogue.
  abbrev pub page_of : List Scene → ℕ → ℕ → CandidatePage Scene
  page_of all page size = record {
    scenes = take size (drop ((page - 1) * size) all);
    total = length all;
  }

  -- The loop over a page appends its matches up to the target.
  pub push_matches-take :
      (target : ℕ) (wanted : Scene → Bool) (matched scenes : List Scene)
      → length matched < target
      → push_matches target wanted matched scenes ≡ take target (matched ++ keep wanted scenes)
  unfolding push_matches
  push_matches-take target wanted matched [] short = sym (
      take_all target (matched ++ []) (omega (arith, length-append matched (keep wanted [])))
      ∙ append_nil_right matched)
  push_matches-take target wanted matched (scene ∷ scenes) short =
      let more = matched ++ (scene ∷ []) in
      let rest = keep wanted scenes in
      let joined : take target (matched ++ (scene ∷ rest)) ≡ take target (more ++ rest) =
        ap (take target) (sym (append_one matched scene rest)) in
      let longer = length-append matched (scene ∷ []) in
      elim (Bool-cases (wanted scene)) [
        | inl e ↦ elim (Bool-cases (leb target (length more))) [
          | inl full ↦
              let cut : take target (more ++ rest) ≡ take target more =
                take-append target more rest (leb→le target (length more) full) in
              let fits : take target more ≡ more = take_all target more (omega (arith, longer)) in
              rw (e, full) (sym (joined ∙ cut ∙ fits))
          | inr room ↦
              let later : length more < target = ground arith in
              rw (e, room) (push_matches-take target wanted more scenes later ∙ sym joined)
        ]
        | inr e ↦ rw e (push_matches-take target wanted matched scenes short)
      ]

module _ {Scene : Type 0} (plan : Plan) (wanted : Scene → Bool) (all : List Scene) where
  -- The matches among the first `n` scenes of the catalogue, up to the target.
  abbrev pub cover : ℕ → List Scene
  cover n = take plan.match_target (keep wanted (take n all))

  pub cover-all : (n m : ℕ) → length all ≤ n → n ≤ m → cover n ≡ cover m
  cover-all n m h k = rw (take_all n all h, take_all m all (omega (arith, h, k))) refl

  pub cover-full : (n m : ℕ) → n ≤ m → plan.match_target ≤ length (cover n) → cover n ≡ cover m
  cover-full n m h full =
      let before = keep wanted (take n all) in
      let after = keep wanted (take (m - n) (drop n all)) in
      let whole : n + (m - n) ≡ m = omega arith in
      let split : keep wanted (take m all) ≡ before ++ after =
        ap (λ j. keep wanted (take j all)) (sym whole)
        ∙ ap (keep wanted) (sym (take-drop n (m - n) all))
        ∙ keep-append wanted (take n all) (take (m - n) (drop n all)) in
      sym (
        ap (take plan.match_target) split
        ∙ take-append plan.match_target before after
            (omega (arith, full, length-take plan.match_target before)))

  -- Where the loop stands before a turn.
  pub record IsAt (k : ℕ) (s : Search Scene) : Type 0 where
    pub page : s.next_page ≡ suc k
    pub at : s.inspected ≡ min plan.max_inspected (k * plan.page_size)
    pub matches : s.matched ≡ cover s.inspected
    pub counted : (n : ℕ) → below n s.total ≡ false → length all ≤ n

  -- A turn appends the matches of the next page.
  pub grown :
      (off m : ℕ) (matched : List Scene)
      → matched ≡ cover off
      → length matched < plan.match_target
      → push_matches plan.match_target wanted matched (take m (drop off all)) ≡ cover (off + m)
  grown off m matched e room =
      let before = keep wanted (take off all) in
      let small : length (cover off) < plan.match_target = omega (arith, room, ap length e) in
      let same : matched ≡ before = e ∙ take_short plan.match_target before small in
      push_matches-take plan.match_target wanted matched (take m (drop off all)) room
      ∙ ap (λ xs. take plan.match_target (xs ++ keep wanted (take m (drop off all)))) same
      ∙ ap (take plan.match_target) (
          sym (keep-append wanted (take off all) (take m (drop off all)))
          ∙ ap (keep wanted) (take-drop off m all))
