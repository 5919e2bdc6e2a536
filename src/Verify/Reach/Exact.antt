-- ===== src/Verify/Reach/Exact.antt =====
-- `reachable` ends, and finds the bugs that a walk from the root reaches.
use bzr_live.Common.{
  ℕ, zero, suc, ◌+◌, ◌≤◌, ◌<◌, String, Bool, true, false, ◌||◌, ◌≡◌, refl, sym, ◌∙◌, ap, List, [],
  ◌∷◌, ◌++◌, map, ◌==ₛ◌, eq_iff, eq_refl, arith, mem_text, All, Option, some, length, length-append,
  if◌then◌else◌, Bool-cases, inl, inr,
}
use mathlib.Core.Path.{subst}
use bzr_live.Common.Times.{times, times_pos, times_zero, mem-append, length-times}
use bzr_live.Verify.Reach
use bzr_live.Verify.Reach.{Search}

abbrev pub names : List (String × ℕ) → List String
names hops = map (λ h. h.0) hops

names-append :
    (hops : List (String × ℕ)) (x : String) (n : ℕ)
    → names (hops ++ (x, n) ∷ []) ≡ names hops ++ x ∷ []
names-append [] x n = refl
names-append (h ∷ hops) x n = ap (λ (t : List String). h.0 ∷ t) (names-append hops x n)

module _ (edges : String → List String) (root : String) (nodes : List String) where
  -- a walk along that many edges
  pub data Walk : ℕ → String → Type 0 where
    at_root : Walk 0 root
    along : {n : ℕ} {a b : String} → Walk n a → mem_text b (edges a) ≡ true → Walk (suc n) b

  All-append :
      (hops : List (String × ℕ)) (h : String × ℕ)
      → All (λ g. Walk g.1 g.0) hops
      → Walk h.1 h.0
      → All (λ g. Walk g.1 g.0) (hops ++ h ∷ [])
  All-append [] h all w = (w, tt)
  All-append (g ∷ hops) h (first, all) w = (first, All-append hops h all w)

  -- the state within a round that started from `size` seen bugs, with `pending` still to visit
  record IsSearch (depth size : ℕ) (pending : List String) (s : Search) : Type 0 where
    inside : (z : String) → times z s.seen ≤ times z nodes
    listed : (z : String) → mem_text z s.seen ≡ (root ==ₛ z || mem_text z (names s.hops))
    walks : All (λ g. Walk g.1 g.0) s.hops
    next : (z : String) → mem_text z s.following ≡ true → Walk depth z
    grown : length s.seen ≡ size + length s.following
    closed :
        (z b : String)
        → mem_text z s.seen ≡ true
        → mem_text z s.following ≡ false
        → mem_text z pending ≡ false
        → mem_text b (edges z) ≡ true
        → mem_text b s.seen ≡ true

  meet-IsSearch :
      (depth size : ℕ) (pending : List String) (other : String) (s : Search)
      → mem_text other nodes ≡ true
      → Walk depth other
      → IsSearch depth size pending s
      → IsSearch depth size pending (Reach.meet depth other s)
        × ((z : String)
            → mem_text z (Reach.meet depth other s).seen ≡ (mem_text z s.seen || other ==ₛ z))
  meet-IsSearch depth size pending other s known walk v = by_test (mem_text other s.seen) refl
    where
      by_test :
          (b : Bool)
          → mem_text other s.seen ≡ b
          → let t = if b then s else record {
            seen = other ∷ s.seen;
            hops = s.hops ++ (other, depth) ∷ [];
            following = s.following ++ other ∷ [];
          } in
            IsSearch depth size pending t
            × ((z : String) → mem_text z t.seen ≡ (mem_text z s.seen || other ==ₛ z))
      by_test true e = (v, λ z. ground (arith, e, eq_iff other z))
      by_test false e = (
        record {
          inside = λ z. ground (
            arith,
            v.inside z,
            e,
            times_zero other s.seen e,
            times_pos other nodes known,
            eq_iff other z,
          );
          listed = λ z. ground (
            arith,
            v.listed z,
            ap (mem_text z) (names-append s.hops other depth),
            mem-append z (names s.hops) (other ∷ []),
          );
          walks = All-append s.hops (other, depth) v.walks walk;
          next = λ z m. elim (Bool-cases (other ==ₛ z)) [
            | inl same ↦ subst (Walk depth) ((eq_iff other z).0 same) walk
            | inr differs ↦
                v.next z (ground (arith, m, differs, mem-append z s.following (other ∷ [])))
          ];
          grown = omega (arith, v.grown, length-append s.following (other ∷ []));
          closed = λ z b m f p k.
              ground (arith, m, f, p, k, v.closed z b, mem-append z s.following (other ∷ []));
        },
        λ z. ground arith,
      )

  visit-IsSearch :
      (depth size : ℕ) (pending others : List String) (s : Search)
      → ((z : String) → mem_text z others ≡ true → (mem_text z nodes ≡ true) × Walk depth z)
      → IsSearch depth size pending s
      → IsSearch depth size pending (Reach.visit depth others s)
        × ((z : String)
            → mem_text z (Reach.visit depth others s).seen
              ≡ (mem_text z s.seen || mem_text z others))
  unfolding Reach.visit
  visit-IsSearch depth size pending [] s h v = (v, λ z. ground arith)
  visit-IsSearch depth size pending (other ∷ others) s h v =
      let (known, walk) = h other (ground (arith, eq_refl other)) in
      let (met, here) = meet-IsSearch depth size pending other s known walk v in
      let (last, rest) =
        visit-IsSearch depth size pending others (Reach.meet depth other s)
          (λ z m. h z (ground (arith, m))) met in
      (last, λ z. rest z ∙ ground (arith, here z))

  module _ (inner : (z b : String) → mem_text b (edges z) ≡ true → mem_text b nodes ≡ true) where
    -- a bug whose edges have been visited is no longer pending
    IsSearch-visited :
        (depth size : ℕ) (alias : String) (pending : List String) (s t : Search)
        → ((z : String) → mem_text z t.seen ≡ (mem_text z s.seen || mem_text z (edges alias)))
        → IsSearch depth size (alias ∷ pending) t
        → IsSearch depth size pending t
    IsSearch-visited depth size alias pending s t all v = record {
      inside = v.inside;
      listed = v.listed;
      walks = v.walks;
      next = v.next;
      grown = v.grown;
      closed = λ z b m f p k. elim (Bool-cases (alias ==ₛ z)) [
        | inl same ↦
            let from = ap (λ (x : String). mem_text b (edges x)) ((eq_iff alias z).0 same) ∙ k in
            ground (arith, all b, from)
        | inr differs ↦ v.closed z b m f (ground (arith, p, differs)) k
      ];
    }

    visit_all-IsSearch :
        (depth size : ℕ) (pending : List String) (s : Search)
        → ((z : String) → mem_text z pending ≡ true → Walk depth z)
        → IsSearch (suc depth) size pending s
        → IsSearch (suc depth) size [] (Reach.visit_all edges (suc depth) pending s)
    unfolding Reach.visit_all
    visit_all-IsSearch depth size [] s h v = v
    visit_all-IsSearch depth size (alias ∷ pending) s h v =
        let walk = h alias (ground (arith, eq_refl alias)) in
        let (visited, all) =
          visit-IsSearch (suc depth) size (alias ∷ pending) (edges alias) s
            (λ z m. (inner alias z m, along walk m)) v in
        let t = Reach.visit (suc depth) (edges alias) s in
        visit_all-IsSearch depth size pending t (λ z m. h z (ground (arith, m)))
          (IsSearch-visited (suc depth) size alias pending s t all visited)

    -- the next round starts with what this one left to follow
    IsSearch-next :
        (depth size : ℕ) (t : Search)
        → IsSearch depth size [] t
        → IsSearch (suc depth) (length t.seen) t.following (record t { following = [] })
    IsSearch-next depth size t v = record {
      inside = v.inside;
      listed = v.listed;
      walks = v.walks;
      next = λ z m. cc;
      grown = omega arith;
      closed = λ z b m f p k. v.closed z b m p refl k;
    }

    -- where nothing is left to visit, each walk has been followed
    seen-Walk :
        (depth size : ℕ) (s : Search)
        → IsSearch depth size [] s
        → s.following ≡ []
        → (n : ℕ) (z : String) → Walk n z
        → mem_text z s.seen ≡ true
    seen-Walk depth size s v done n z at_root = ground (arith, v.listed root, eq_refl root)
    seen-Walk depth size s v done n z (along {n = m} {a = a} w k) =
        v.closed a z (seen-Walk depth size s v done m a w) (ap (mem_text a) done) refl k

    -- what the search is to find
    abbrev IsFound : Option (List (String × ℕ)) → Type 0
    IsFound result =
        (hops : List (String × ℕ)) × (result ≡ some hops)
        × All (λ h. Walk h.1 h.0) hops
        × ((n : ℕ) (z : String) → Walk n z → (root ==ₛ z || mem_text z (names hops)) ≡ true)

    search-IsFound :
        (fuel depth : ℕ) (frontier : List String) (s : Search)
        → (1 ≤ length frontier → length nodes < fuel + length s.seen)
        → ((z : String) → mem_text z frontier ≡ true → Walk depth z)
        → IsSearch (suc depth) (length s.seen) frontier (record s { following = [] })
        → IsFound (Reach.search edges fuel depth frontier s)
    unfolding Reach.search
    search-IsFound fuel depth [] s enough walks v = (
      s.hops,
      refl,
      v.walks,
      λ n z w.
          sym (v.listed z)
          ∙ seen-Walk (suc depth) (length s.seen) (record s { following = [] }) v refl n z w,
    )
    search-IsFound zero depth (alias ∷ frontier) s enough walks v =
        absurd (omega (arith, enough, length-times s.seen nodes v.inside))
    search-IsFound (suc fuel) depth (alias ∷ frontier) s enough walks v =
        let t =
          Reach.visit_all edges (suc depth) (alias ∷ frontier) (record s { following = [] }) in
        let all =
          visit_all-IsSearch depth (length s.seen) (alias ∷ frontier) (record s { following = [] })
            walks v in
        search-IsFound fuel (suc depth) t.following t
          (λ more. omega (arith, enough, all.grown, more)) all.next
          (IsSearch-next (suc depth) (length s.seen) t all)

    -- When the bugs hold the root and the end of each edge, the search ends within its fuel; each
    -- bug that it finds is reached by a walk of that many edges, and each bug that a walk reaches is
    -- the root or is found.
    pub reachable-total :
        mem_text root nodes ≡ true
        → (hops : List (String × ℕ)) × (Reach.reachable edges nodes root ≡ some hops)
          × All (λ h. Walk h.1 h.0) hops
          × ((n : ℕ) (z : String) → Walk n z → (root ==ₛ z || mem_text z (names hops)) ≡ true)
    unfolding Reach.reachable
    reachable-total known =
        search-IsFound (length nodes) 0 (root ∷ [])
          (record { seen = root ∷ []; hops = []; following = [] }) (λ more. omega arith)
          (λ z m. subst (Walk 0) ((eq_iff root z).0 (ground (arith, m))) at_root)
          (record {
            inside = λ z. ground (arith, times_pos root nodes known, eq_iff root z);
            listed = λ z. ground arith;
            walks = tt;
            next = λ z m. cc;
            grown = omega arith;
            closed = λ z b m f p k. ground (arith, m, p);
          })
