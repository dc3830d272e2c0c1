-- ===== src/Race/Machine.antt =====
-- A section of code as a machine of points: one step is one access to the shared fields, one
-- `with self.lock` block, or one call of `heappop`, `heappush`, `sendto` or the callback.
use mini_corundum.Base.{◌≡◌, refl, Error, Outcome, ok, raised, Action, ◌>>=◌}

-- where a thread stands: at a point, behind the section with its value, or ended by an exception
pub data Next (P A : Type 0) : Type 0 where
  at : P → Next P A
  left : A → Next P A
  broken : Error → Next P A

-- where a thread stands, and the shared state
abbrev pub Config : Type 0 → Type 0 → Type 0 → Type 0
Config S P A = Next P A × S

abbrev pub Machine : Type 0 → Type 0 → Type 0 → Type 0
Machine S P A = P → S → Config S P A

module _ {S : Type 0} where
  -- what a call that runs to its end leaves
  abbrev pub end_of : {P A : Type 0} → Outcome S A → Config S P A
  end_of (ok a s) = (left a, s)
  end_of (raised e s) = (broken e, s)

  -- a section inside another one: its points are `inside`, and behind it comes `behind`
  abbrev pub within :
      {P Q A B : Type 0} (inside : P → Q) (behind : A → Next Q B) → Config S P A → Config S Q B
  within inside behind (at p, s) = (at (inside p), s)
  within inside behind (left a, s) = (behind a, s)
  within inside behind (broken e, s) = (broken e, s)

  -- Steps of one machine with nothing in between.
  pub data Reaches {P A : Type 0} (m : Machine S P A) : Config S P A → Config S P A → Type 0 where
    stay : {c : Config S P A} → Reaches m c c
    go : {p : P} {s : S} {c : Config S P A} → Reaches m (m p s) c → Reaches m (at p, s) c

  pub Reaches-trans :
      {P A : Type 0} {m : Machine S P A} {a b c : Config S P A}
      → Reaches m a b
      → Reaches m b c
      → Reaches m a c
  Reaches-trans stay r = r
  Reaches-trans (go q) r = go (Reaches-trans q r)

  module _ {P Q A B : Type 0} {m : Machine S P A} {n : Machine S Q B} (inside : P → Q)
      (behind : A → Next Q B)
      (same : (p : P) (s : S) → n (inside p) s ≡ within inside behind (m p s)) where
    -- The steps of a section are steps of the code around it.
    pub Reaches-within :
        {c d : Config S P A}
        → Reaches m c d
        → Reaches n (within inside behind c) (within inside behind d)
    Reaches-within stay = stay
    Reaches-within (go {p} {s} r) = go (rw (same p s) (Reaches-within r))

    -- A section that does what a call does, and behind it code that does what the rest does.
    pub Reaches-bind :
        (f : Action S A) (g : A → Action S B) (p : P) (s : S)
        → Reaches m (at p, s) (end_of (f s))
        → ((a : A) (s' : S) → Reaches n (behind a, s') (end_of (g a s')))
        → Reaches n (at (inside p), s) (end_of ((f >>= g) s))
    Reaches-bind f g p s r k = Reaches-trans (Reaches-within r) (ended (f s))
      where
        ended :
            (o : Outcome S A)
            → Reaches n (within inside behind (end_of o)) (end_of (◌>>=◌ {A = A} (λ _. o) g s))
        ended (ok a s') = k a s'
        ended (raised e s') = stay

  -- A section with which the code around it ends.
  pub Reaches-last :
      {P Q A : Type 0} {m : Machine S P A} {n : Machine S Q A} (inside : P → Q)
      (same : (p : P) (s : S) → n (inside p) s ≡ within inside left (m p s)) (p : P) (s : S)
      (o : Outcome S A)
      → Reaches m (at p, s) (end_of o)
      → Reaches n (at (inside p), s) (end_of o)
  Reaches-last inside same p s (ok a s') r = Reaches-within inside left same r
  Reaches-last inside same p s (raised e s') r = Reaches-within inside left same r

  pub Reaches-eq :
      {P A : Type 0} {m : Machine S P A} {c : Config S P A} {o o' : Outcome S A}
      → o ≡ o'
      → Reaches m c (end_of o)
      → Reaches m c (end_of o')
  Reaches-eq e r = rw (← e) r

  pub bind_assoc :
      {A B C : Type 0} (o : Outcome S A) (g : A → Action S B) (k : B → Action S C) (s : S)
      → ◌>>=◌ {A = A} (λ _. o) (λ a. g a >>= k) s ≡ ((◌>>=◌ {A = A} (λ _. o) g) >>= k) s
  bind_assoc (ok a s') g k s = refl
  bind_assoc (raised e s') g k s = refl
