-- ===== src/Plugin/Topo/Released.antt =====
-- The loop over `adj[cur.id]`: what it takes from the degrees and puts into the queue.
use pdai_server_panel.Common.{
  ℕ, zero, suc, ◌+◌, ◌-◌, ◌≤◌, String, false, ◌&&◌, some, List, [], ◌∷◌, ◌++◌, ◌==◌, ltb, ◌≡◌, refl,
  ap, ◌∙◌, if◌then◌else◌, arith, ◌=ˢ◌, eq_iff, Bool-cases, inl, inr, lookup, insert, lookup-insert,
  ℤ, pos, decr, is_zero,
}
use pdai_server_panel.Plugin.Topo.{Plugins, Entry, entry_of, get_deg, release}
use pdai_server_panel.Plugin.Topo.Count.{same, count, count-append, ids}
use pdai_server_panel.Plugin.Topo.Built.{get_deg-some}

ids-append : (q r : List Entry) → ids (q ++ r) ≡ ids q ++ ids r
ids-append [] r = refl
ids-append (e ∷ q) r = ap (λ l. e.id ∷ l) (ids-append q r)

-- The queue after one round.
abbrev queued : Plugins → String → ℤ → List Entry → List Entry
queued ps next d queue = if is_zero d then queue ++ entry_of ps next ∷ [] else queue

count-queued :
    (ps : Plugins) (next : String) (d : ℤ) (queue : List Entry) (x : String)
    → count x (ids (queued ps next d queue))
      ≡ count x (ids queue) + (if is_zero d then same x next else 0)
unfolding count
count-queued ps next d queue x = elim (Bool-cases (is_zero d)) [
  | inl e ↦ rw e (rw ids-append (rw count-append (omega arith)))
  | inr e ↦ rw e (omega arith)
]

-- A plugin that waits for none of what is released is left as it is.
pub release-other :
    (ps : Plugins) (ns : List String) (deg : List (String × ℤ)) (queue : List Entry) (x : String)
    → count x ns ≡ 0
    → (lookup x (release ps ns deg queue).0 ≡ lookup x deg)
      × (count x (ids (release ps ns deg queue).1) ≡ count x (ids queue))
unfolding release count
release-other ps [] deg queue x h = (refl, refl)
release-other ps (n ∷ ns) deg queue x h =
    let d = decr (get_deg n deg) in
    let e : (n =ˢ x) ≡ false = ground arith in
    let (a, b) = release-other ps ns (insert n d deg) (queued ps n d queue) x (ground arith) in
    (a ∙ rw lookup-insert (rw e), b ∙ count-queued ps n d queue x ∙ rw e (ground arith))

-- A plugin that waits for k dependencies loses one for each time that it is released, and enters
-- the queue once, when the last is gone.
pub release-waiting :
    (ps : Plugins) (ns : List String) (deg : List (String × ℤ)) (queue : List Entry) (x : String)
    (k : ℕ)
    → lookup x deg ≡ some (pos k)
    → count x ns ≤ k
    → (lookup x (release ps ns deg queue).0 ≡ some (pos (k - count x ns)))
      × (count x (ids (release ps ns deg queue).1)
          ≡ count x (ids queue) + (if ltb 0 (count x ns) && k == count x ns then 1 else 0))
unfolding release count
release-waiting ps [] deg queue x k h le = (ground arith, omega arith)
release-waiting ps (n ∷ ns) deg queue x zero h le =
    let d = decr (get_deg n deg) in
    let e : (n =ˢ x) ≡ false = ground arith in
    let (a, b) =
      release-waiting ps ns (insert n d deg) (queued ps n d queue) x 0 (rw lookup-insert (rw e h))
        (omega arith) in
    let cq : count x (ids (queued ps n d queue)) ≡ count x (ids queue) =
      count-queued ps n d queue x ∙ rw e (ground arith) in
    (a ∙ ap (λ m. some (pos m)) (omega arith), b ∙ ground (arith, cq))
release-waiting ps (n ∷ ns) deg queue x (suc k) h le =
    let d = decr (get_deg n deg) in
    elim (Bool-cases (n =ˢ x)) [
      | inl e ↦
          let i : n ≡ x = (eq_iff n x).0 e in
          let dq : decr (get_deg n deg) ≡ pos k =
            ap decr (get_deg-some n deg (pos (suc k)) (rw i h)) in
          let (a, b) =
            release-waiting ps ns (insert n d deg) (queued ps n d queue) x k
              (rw lookup-insert (rw e (ap some dq))) (ground arith) in
          let cq : count x (ids (queued ps n d queue))
              ≡ count x (ids queue) + (if k == 0 then 1 else 0) =
            count-queued ps n d queue x ∙ rw dq (ground arith) in
          (a ∙ rw e (ap (λ m. some (pos m)) (omega arith)), b ∙ ground (arith, cq))
      | inr e ↦
          let (a, b) =
            release-waiting ps ns (insert n d deg) (queued ps n d queue) x (suc k)
              (rw lookup-insert (rw e h)) (ground arith) in
          let cq : count x (ids (queued ps n d queue)) ≡ count x (ids queue) =
            count-queued ps n d queue x ∙ rw e (ground arith) in
          (a ∙ rw e (ap (λ m. some (pos m)) (omega arith)), b ∙ ground (arith, cq))
    ]
