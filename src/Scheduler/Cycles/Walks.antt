-- ===== src/Scheduler/Cycles/Walks.antt =====
-- engine/scheduler.py, `_detect_cycles`: walks along needs, and what one call of the search keeps.
use forge_ci_cd_platform.Base.{
  ℕ, suc, ◌+◌, ◌<◌, ◌≡◌, refl, ◌∙◌, ap, inl, inr, List, [], ◌∷◌, ◌++◌, some, true, false, Option,
  arith, Str, ◌==◌, length, contains, Nodup, Subset, Bool-cases, All, All-snoc, contains-append,
  discard-absent,
}
use forge_ci_cd_platform.Base.Dict.{keys}
use forge_ci_cd_platform.Scheduler.{Graph, needs_of, Dfs, from_index, pop, enter, leave, report}

-- Each entry needs the next one.
abbrev pub IsWalk : (Str → List Str) → List Str → Type 0
IsWalk needs [] = Unit
IsWalk needs (x ∷ []) = Unit
IsWalk needs (x ∷ y ∷ ys) = (contains y (needs x) ≡ true) × IsWalk needs (y ∷ ys)

-- A walk along needs that comes back to its first entry.
pub record IsCycle (needs : Str → List Str) (c : List Str) : Type 0 where
  pub first : Str
  pub inner : List Str
  pub shape : c ≡ first ∷ inner ++ first ∷ []
  pub walk : IsWalk needs c

pub IsWalk-snoc :
    (needs : Str → List Str) (xs : List Str) (x y : Str)
    → IsWalk needs (xs ++ x ∷ [])
    → contains y (needs x) ≡ true
    → IsWalk needs ((xs ++ x ∷ []) ++ y ∷ [])
IsWalk-snoc needs [] x y w h = (h, tt)
IsWalk-snoc needs (a ∷ []) x y w h = (w.0, (h, tt))
IsWalk-snoc needs (a ∷ b ∷ xs) x y w h = (w.0, IsWalk-snoc needs (b ∷ xs) x y w.1 h)

pub IsWalk-tail :
    (needs : Str → List Str) (x : Str) (xs : List Str) → IsWalk needs (x ∷ xs) → IsWalk needs xs
IsWalk-tail needs x [] w = tt
IsWalk-tail needs x (y ∷ ys) w = w.1

-- The reported part of the path closes a cycle.
pub IsCycle-from_index :
    (needs : Str → List Str) (node : Str) (path : List Str)
    → contains node path ≡ true
    → IsWalk needs (path ++ node ∷ [])
    → IsCycle needs (from_index node path ++ node ∷ [])
IsCycle-from_index needs node [] h w = cc
IsCycle-from_index needs node (y ∷ ys) h w = elim (Bool-cases (node == y)) [
  | inl e ↦ rw e (record { first = node; inner = ys; shape = ground arith; walk = w })
  | inr e ↦
      rw e
        (IsCycle-from_index needs node ys (ground arith) (IsWalk-tail needs y (ys ++ node ∷ []) w))
]

pub pop-snoc : (xs : List Str) (x : Str) → pop (xs ++ x ∷ []) ≡ xs
pop-snoc [] x = refl
pop-snoc (y ∷ []) x = refl
pop-snoc (y ∷ z ∷ xs) x = ap (λ l. y ∷ l) (pop-snoc (z ∷ xs) x)

-- What holds when the search is called at a node.
pub record Pre (g : Graph) (fuel : ℕ) (node : Str) (s : Dfs) : Type 0 where
  pub nodup : Nodup s.visiting
  pub within : Subset s.visiting (keys g)
  pub same : (x : Str) → contains x s.path ≡ contains x s.visiting
  pub key : contains node (keys g) ≡ true
  pub walk : IsWalk (needs_of g) (s.path ++ node ∷ [])
  pub found : All (IsCycle (needs_of g)) s.cycles_found
  pub room : length (keys g) < fuel + length s.visiting

-- The search gives the node marks and the path back.
pub record Post (g : Graph) (s s' : Dfs) : Type 0 where
  pub visiting : s'.visiting ≡ s.visiting
  pub path : s'.path ≡ s.path
  pub found : All (IsCycle (needs_of g)) s'.cycles_found

abbrev pub Searches : Graph → ℕ → (Str → Dfs → Option Dfs) → Type 0
Searches g fuel visit =
    (node : Str) (s : Dfs) → Pre g fuel node s → (s' : Dfs) × (visit node s ≡ some s') × Post g s s'

-- What holds in the loop over the needs of `node`, whose path was `before`.
pub record Inside (g : Graph) (fuel : ℕ) (node : Str) (before : List Str) (s : Dfs) : Type 0 where
  pub nodup : Nodup s.visiting
  pub within : Subset s.visiting (keys g)
  pub same : (x : Str) → contains x s.path ≡ contains x s.visiting
  pub path : s.path ≡ before ++ node ∷ []
  pub walk : IsWalk (needs_of g) (before ++ node ∷ [])
  pub found : All (IsCycle (needs_of g)) s.cycles_found
  pub room : length (keys g) < fuel + length s.visiting

pub Inside-Post :
    {g : Graph} {fuel : ℕ} {node : Str} {before : List Str} {s s' : Dfs}
    → Inside g fuel node before s
    → Post g s s'
    → Inside g fuel node before s'
Inside-Post inside post = record {
  nodup = rw post.visiting inside.nodup;
  within = rw post.visiting inside.within;
  same = λ x. rw (post.visiting, post.path) (inside.same x);
  path = post.path ∙ inside.path;
  walk = inside.walk;
  found = post.found;
  room = rw post.visiting inside.room;
}

pub enter-Inside :
    {g : Graph} {fuel : ℕ} {node : Str} {s : Dfs}
    → Pre g (suc fuel) node s
    → contains node s.visiting ≡ false
    → Inside g fuel node s.path (enter node s)
unfolding enter
enter-Inside {node = node} {s = s} pre e = record {
  nodup = rw e (e, pre.nodup);
  within = rw e (λ x m. ground (arith, pre.within x, pre.key));
  same = rw e (λ x. ground (arith, pre.same x, contains-append x s.path (node ∷ [])));
  path = refl;
  walk = pre.walk;
  found = pre.found;
  room = rw e (omega (arith, pre.room));
}

pub leave-Post :
    {g : Graph} (node : Str) {s s' : Dfs}
    → Post g (enter node s) s'
    → contains node s.visiting ≡ false
    → Post g s (leave node s')
unfolding enter leave
leave-Post node {s = s} post e = record {
  visiting = rw post.visiting (rw e (ground (arith, discard-absent node s.visiting)));
  path = rw post.path (pop-snoc s.path node);
  found = post.found;
}

pub report-Post :
    {g : Graph} {fuel : ℕ} {node : Str} {s : Dfs}
    → Pre g fuel node s
    → contains node s.visiting ≡ true
    → Post g s (report node s)
unfolding report
report-Post {g} {node = node} {s = s} pre e = record {
  visiting = refl;
  path = refl;
  found =
      All-snoc (IsCycle (needs_of g)) s.cycles_found (from_index node s.path ++ node ∷ []) pre.found
        (IsCycle-from_index (needs_of g) node s.path (pre.same node ∙ e) pre.walk);
}
