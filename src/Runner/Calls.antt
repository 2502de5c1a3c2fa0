-- ===== src/Runner/Calls.antt =====
-- engine/runner.py: what the calls of code that runs in the world satisfy.
use mathlib.Core.List.{append_assoc, append-nil}
use forge_ci_cd_platform.Base.{
  ◌≡◌, refl, sym, ap, ◌∙◌, List, [], ◌∷◌, ◌++◌, Bool, true, false, Str, if◌then◌else◌,
}
use forge_ci_cd_platform.Base.Result.{Result, ok, err}
use forge_ci_cd_platform.Runner.{
  RunError, Call, Docker, World, Run, ◌>>=◌, after, pure, silent, raising, recorded, log,
}

module _ {S : Type 0} where
  -- The calls that are made satisfy `Q` on success, with the value, and `E` on an exception.
  abbrev pub Holds :
      {A : Type 0}
      → (A → List Call → Type 0)
      → (List Call → Type 0)
      → World S
      → Result RunError A × World S
      → Type 0
  Holds Q E w (ok a, w') = (cs : List Call) × (w'.calls ≡ w.calls ++ cs) × Q a cs
  Holds Q E w (err e, w') = (cs : List Call) × (w'.calls ≡ w.calls ++ cs) × E cs

  pub Makes : {A : Type 0} → Run S A → (A → List Call → Type 0) → (List Call → Type 0) → Type 0
  Makes m Q E = (w : World S) → Holds Q E w (m w)

  pub Holds-Makes :
      {A : Type 0} (m : Run S A) (Q : A → List Call → Type 0) (E : List Call → Type 0) (w : World S)
      → Makes m Q E
      → Holds Q E w (m w)
  unfolding Makes
  Holds-Makes m Q E w h = h w

  pub Makes-if :
      {A : Type 0} (b : Bool) (m n : Run S A) (Q : A → List Call → Type 0) (E : List Call → Type 0)
      → (b ≡ true → Makes m Q E)
      → (b ≡ false → Makes n Q E)
      → Makes (if b then m else n) Q E
  unfolding Makes
  Makes-if true m n Q E f g w = f refl w
  Makes-if false m n Q E f g w = g refl w

  pub Holds-extend :
      {B : Type 0} (z : Result RunError B × World S) (w w' : World S) (cs : List Call)
      (R : B → List Call → Type 0) (E : List Call → Type 0)
      → w'.calls ≡ w.calls ++ cs
      → Holds (λ b ds. R b (cs ++ ds)) (λ ds. E (cs ++ ds)) w' z
      → Holds R E w z
  Holds-extend (ok b, w2) w w' cs R E p (ds, e, r) =
      (cs ++ ds, e ∙ ap (λ l. l ++ ds) p ∙ append_assoc w.calls cs ds, r)
  Holds-extend (err x, w2) w w' cs R E p (ds, e, r) =
      (cs ++ ds, e ∙ ap (λ l. l ++ ds) p ∙ append_assoc w.calls cs ds, r)

  -- Whether it returns or raises.
  pub Holds-any :
      {B : Type 0} (P : List Call → Type 0) (w : World S) (z : Result RunError B × World S)
      → Holds (λ _ cs. P cs) P w z
      → (cs : List Call) × (z.1.calls ≡ w.calls ++ cs) × P cs
  Holds-any P w (ok b, w') h = h
  Holds-any P w (err x, w') h = h

  after-Holds :
      {A B : Type 0} (p : Result RunError A × World S) (k : A → Run S B) (w : World S)
      (Q : A → List Call → Type 0) (F : List Call → Type 0) (R : B → List Call → Type 0)
      (E : List Call → Type 0)
      → Holds Q F w p
      → ((cs : List Call) → F cs → E cs)
      → ((a : A) (cs : List Call)
          → Q a cs
          → Makes (k a) (λ b ds. R b (cs ++ ds)) (λ ds. E (cs ++ ds)))
      → Holds R E w (after p k)
  unfolding Makes
  after-Holds (err e, w') k w Q F R E (cs, p, q) f g = (cs, p, f cs q)
  after-Holds (ok a, w') k w Q F R E (cs, p, q) f g =
      Holds-extend (k a w') w w' cs R E p (g a cs q w')

  pub Makes->>= :
      {A B : Type 0} (m : Run S A) (k : A → Run S B) (Q : A → List Call → Type 0)
      (F : List Call → Type 0) (R : B → List Call → Type 0) (E : List Call → Type 0)
      → Makes m Q F
      → ((cs : List Call) → F cs → E cs)
      → ((a : A) (cs : List Call)
          → Q a cs
          → Makes (k a) (λ b ds. R b (cs ++ ds)) (λ ds. E (cs ++ ds)))
      → Makes (m >>= k) R E
  unfolding Makes
  Makes->>= m k Q F R E h f g w = after-Holds (m w) k w Q F R E (h w) f g

  pub Makes-weaken :
      {A : Type 0} (m : Run S A) (Q R : A → List Call → Type 0) (E F : List Call → Type 0)
      → Makes m Q E
      → ((a : A) (cs : List Call) → Q a cs → R a cs)
      → ((cs : List Call) → E cs → F cs)
      → Makes m R F
  unfolding Makes
  Makes-weaken m Q R E F h f g w = weaker (m w) (h w)
    where
      weaker : (z : Result RunError _ × World S) → Holds Q E w z → Holds R F w z
      weaker (ok a, w') (cs, p, q) = (cs, p, f a cs q)
      weaker (err x, w') (cs, p, q) = (cs, p, g cs q)

  -- The rule for code that always makes the same calls.
  pub Makes-then :
      {A B : Type 0} (m : Run S A) (k : A → Run S B) (L : List Call) (R : B → List Call → Type 0)
      (E : List Call → Type 0)
      → Makes m (λ _ cs. cs ≡ L) (λ cs. cs ≡ L)
      → E L
      → ((a : A) → Makes (k a) (λ b ds. R b (L ++ ds)) (λ ds. E (L ++ ds)))
      → Makes (m >>= k) R E
  Makes-then m k L R E h e f =
      Makes->>= m k (λ _ cs. cs ≡ L) (λ cs. cs ≡ L) R E h (λ cs p. rw p e) (λ a cs p. rw p (f a))

  module _ (docker : Docker S) where
    pub Makes-silent :
        {A : Type 0} (op : S → A × S) (Q : A → List Call → Type 0) (E : List Call → Type 0)
        → ((a : A) → Q a [])
        → Makes (silent docker op) Q E
    unfolding Makes
    Makes-silent op Q E q w = ([], sym (append-nil w.calls), q _)

    pub Makes-recorded :
        {A : Type 0} (call : Call) (op : S → Result RunError A × S) (Q : A → List Call → Type 0)
        (E : List Call → Type 0)
        → ((a : A) → Q a (call ∷ []))
        → E (call ∷ [])
        → Makes (recorded docker call op) Q E
    unfolding Makes
    Makes-recorded call op Q E q e w = split (op w.docker)
      where
        split :
            (p : Result RunError _ × S)
            → Holds Q E w (p.0, record { docker = p.1; calls = w.calls ++ call ∷ [] })
        split (ok a, s) = (call ∷ [], refl, q a)
        split (err x, s) = (call ∷ [], refl, e)

    pub Makes-raising :
        {A : Type 0} (op : S → Result RunError A × S) (Q : A → List Call → Type 0)
        (E : List Call → Type 0)
        → ((a : A) → Q a [])
        → E []
        → Makes (raising docker op) Q E
    unfolding Makes
    Makes-raising op Q E q e w = split (op w.docker)
      where
        split : (p : Result RunError _ × S) → Holds Q E w (p.0, record w { docker = p.1 })
        split (ok a, s) = ([], sym (append-nil w.calls), q a)
        split (err x, s) = ([], sym (append-nil w.calls), e)

    pub Makes-log : (line : Str) → Makes (log docker line) (λ _ cs. cs ≡ []) (λ cs. cs ≡ [])
    unfolding Makes
    Makes-log line w = ([], sym (append-nil w.calls), refl)

pub Makes-pure :
    (S : Type 0) {A : Type 0} (a : A) (Q : A → List Call → Type 0) (E : List Call → Type 0)
    → Q a []
    → Makes {S = S} (pure a) Q E
unfolding Makes
Makes-pure S a Q E q w = ([], sym (append-nil w.calls), q)
