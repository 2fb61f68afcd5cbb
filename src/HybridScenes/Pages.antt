-- ===== src/HybridScenes/Pages.antt =====
-- What the loop over the candidate pages finds, against a catalogue that is served page by page.
use stasharr_portal.Prelude.Text.{eq_text}
use stasharr_portal.Prelude.{
  ℕ, ◌-◌, ◌*◌, ◌<◌, ◌≡◌, inl, inr, Bool, List, leb, Bool-cases, length, take, drop, ap, ◌∙◌, arith,
  leb→le, suc, ◌+◌, ◌≤◌, min, refl, false, length-take, true, ◌==◌, length-drop, take-take, ltb,
  ltb→lt, ==_iff, zero,
}
use stasharr_portal.HybridScenes.{Plan, Search, below, read_page, goes_on, search_pages}
use stasharr_portal.HybridScenes.Cover.{page_of, cover, cover-all, cover-full, IsAt, grown}

module _ {Scene : Type 0} (plan : Plan) (wanted : Scene → Bool) (all : List Scene) where
  -- A turn that ends the loop has found all matches; another keeps the place.
  record Turned (k : ℕ) (s t : Search Scene) : Type 0 where
    pub ended : t.reached_end ≡ true → t.matched ≡ cover plan wanted all plan.max_inspected
    pub went_on : t.reached_end ≡ false → IsAt plan wanted all (suc k) t
    pub advanced : t.reached_end ≡ false → s.inspected < t.inspected

  -- The scenes up to the end of the last page are all that may be inspected.
  last_page :
      (off m : ℕ)
      → off < plan.max_inspected
      → m ≡ min (plan.max_inspected - off) plan.page_size
      → length all < off + plan.page_size
      → cover plan wanted all (off + m) ≡ cover plan wanted all plan.max_inspected
  last_page off m left e last = elim (Bool-cases (leb plan.max_inspected (off + plan.page_size))) [
    | inl far ↦
        let reach : plan.max_inspected ≤ off + plan.page_size =
          leb→le plan.max_inspected (off + plan.page_size) far in
        ap (cover plan wanted all) (omega (arith, reach, e, left))
    | inr near ↦
        let reach : off + plan.page_size < plan.max_inspected = ground arith in
        cover-all plan wanted all (off + m) plan.max_inspected (omega (arith, reach, e, last))
          (omega (arith, reach, e, left))
  ]

  read_page-Turned :
      (k : ℕ) (s : Search Scene)
      → IsAt plan wanted all k s
      → 0 < plan.page_size
      → length s.matched < plan.match_target
      → s.inspected < plan.max_inspected
      → Turned k s (read_page plan wanted (page_of all s.next_page plan.page_size) s)
  unfolding read_page
  read_page-Turned k s here sized room left =
      let off = k * plan.page_size in
      let at_off : s.inspected ≡ off = omega (arith, here.at, left) in
      let off_page : (s.next_page - 1) * plan.page_size ≡ off =
        ap (λ n. (n - 1) * plan.page_size) here.page
        ∙ (let e : suc k - 1 ≡ k = omega arith in rw e refl) in
      let rest = drop off all in
      let page = take plan.page_size rest in
      let m = min (plan.max_inspected - off) plan.page_size in
      let scenes = take m rest in
      let same_page : take plan.page_size (drop ((s.next_page - 1) * plan.page_size) all) ≡ page =
        ap (λ n. take plan.page_size (drop n all)) off_page in
      let same_scenes : take (plan.max_inspected - s.inspected)
            (take plan.page_size (drop ((s.next_page - 1) * plan.page_size) all))
          ≡ scenes =
        ap
          (λ n.
            take (plan.max_inspected - n)
              (take plan.page_size (drop ((s.next_page - 1) * plan.page_size) all)))
          at_off
        ∙ ap (take (plan.max_inspected - off)) same_page
        ∙ take-take (plan.max_inspected - off) plan.page_size rest in
      let matched_off : s.matched ≡ cover plan wanted all off =
        here.matches ∙ ap (cover plan wanted all) at_off in
      let counts = length-take m rest in
      let page_counts = length-take plan.page_size rest in
      let rest_counts = length-drop off all in
      let grows = grown plan wanted all off m s.matched matched_off room in
      elim (Bool-cases (length scenes == 0)) [
        | inl empty ↦
            let nothing : length scenes ≡ 0 = (==_iff (length scenes) 0).0 empty in
            rw (same_scenes, empty, read_page)
              (record {
                ended = λ _.
                    matched_off
                    ∙ cover-all plan wanted all off plan.max_inspected
                        (omega (arith, nothing, counts, rest_counts, at_off, left, sized))
                        (omega (arith, at_off, left));
                went_on = λ e. cc e;
                advanced = λ e. cc e;
              })
        | inr found ↦
            let some_scene : 0 < length scenes = ground (arith, found) in
            elim (Bool-cases (ltb (length page) plan.page_size)) [
              | inl short ↦
                  let last : length page < plan.page_size =
                    ltb→lt (length page) plan.page_size short in
                  rw (same_scenes, found, same_page, short, read_page)
                    (record {
                      ended = λ _.
                          grows
                          ∙ last_page off m (omega (arith, at_off, left)) refl
                              (omega (arith, last, page_counts, rest_counts));
                      went_on = λ e. cc e;
                      advanced = λ e. cc e;
                    })
              | inr whole ↦
                  let filled : plan.page_size ≤ length page = ground (arith, whole) in
                  let step : suc k * plan.page_size ≡ off + plan.page_size = omega arith in
                  let next_at : s.inspected + length scenes
                      ≡ min plan.max_inspected (suc k * plan.page_size) =
                    omega (arith, step, counts, page_counts, filled, rest_counts, at_off, left) in
                  rw (same_scenes, found, same_page, whole, read_page)
                    (record {
                      ended = λ e. cc e;
                      went_on = λ _. record {
                        page = omega (arith, here.page);
                        at = next_at;
                        matches =
                            grows
                            ∙ ap (cover plan wanted all) (
                                omega
                                  (arith, counts, page_counts, filled, rest_counts, at_off, left));
                        counted = λ n below_all. ground (arith, below_all);
                      };
                      advanced = λ _. omega (arith, some_scene);
                    })
            ]
      ]

  -- A loop that stops has found all matches.
  stopped-cover :
      (k : ℕ) (s : Search Scene)
      → IsAt plan wanted all k s
      → goes_on plan s ≡ false
      → s.matched ≡ cover plan wanted all plan.max_inspected
  stopped-cover k s here stops = elim (Bool-cases (ltb (length s.matched) plan.match_target)) [
    | inr full ↦
        let enough : plan.match_target ≤ length s.matched = ground (arith, full) in
        here.matches
        ∙ cover-full plan wanted all s.inspected plan.max_inspected (omega (arith, here.at))
            (omega (arith, enough, ap length here.matches))
    | inl room ↦ elim (Bool-cases (ltb s.inspected plan.max_inspected)) [
      | inr all_seen ↦
          let reached : plan.max_inspected ≤ s.inspected = ground (arith, all_seen) in
          here.matches ∙ ap (cover plan wanted all) (omega (arith, reached, here.at))
      | inl left ↦
          let beyond : below ((s.next_page - 1) * plan.page_size) s.total ≡ false =
            ground (arith, room, left, stops) in
          let over : length all ≤ (s.next_page - 1) * plan.page_size =
            here.counted ((s.next_page - 1) * plan.page_size) beyond in
          let off_page : (s.next_page - 1) * plan.page_size ≡ k * plan.page_size =
            ap (λ n. (n - 1) * plan.page_size) here.page
            ∙ (let e : suc k - 1 ≡ k = omega arith in rw e refl) in
          let seen : s.inspected < plan.max_inspected =
            ltb→lt s.inspected plan.max_inspected left in
          here.matches
          ∙ cover-all plan wanted all s.inspected plan.max_inspected
              (omega (arith, over, off_page, here.at, seen)) (omega (arith, here.at))
    ]
  ]

  pub search_pages-cover :
      (fuel k : ℕ) (s : Search Scene)
      → IsAt plan wanted all k s
      → 0 < plan.page_size
      → plan.max_inspected ≤ s.inspected + fuel
      → (search_pages fuel plan wanted (page_of all) s).matched
        ≡ cover plan wanted all plan.max_inspected
  unfolding search_pages
  search_pages-cover zero k s here sized enough =
      here.matches ∙ ap (cover plan wanted all) (omega (arith, enough, here.at))
  search_pages-cover (suc fuel) k s here sized enough = elim (Bool-cases (goes_on plan s)) [
    | inr stops ↦ rw stops (stopped-cover k s here stops)
    | inl goes ↦
        let t = read_page plan wanted (page_of all s.next_page plan.page_size) s in
        let room : length s.matched < plan.match_target = ground (arith, goes) in
        let left : s.inspected < plan.max_inspected = ground (arith, goes) in
        let turn = read_page-Turned k s here sized room left in
        elim (Bool-cases t.reached_end) [
          | inl end ↦ rw (goes, end) (turn.ended end)
          | inr more ↦
              rw (goes, more)
                (search_pages-cover fuel (suc k) t (turn.went_on more) sized
                  (omega (arith, enough, turn.advanced more)))
        ]
  ]
