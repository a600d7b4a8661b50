-- ===== src/Twin/Gateway/Acks.antt =====
-- Every call gets its own command's ack or none, and leaves no entry behind.
use digital_twin.Prelude.{
  ℕ, Bool, true, false, Option, none, some, List, [], ◌∷◌, ◌==◌, if◌then◌else◌, ◌≡◌, refl, sym, ap,
  ◌∙◌, arith, ==_iff, Bool-cases, inl, inr, All,
}
use digital_twin.Twin.Gateway.{
  Ack, Phase, idle, registered, waiting, refused, returning, returned, Callback, free, holding,
  State, Action, begin, read, finish, publish, message, deliver, connect, disconnect, at, lookup,
  remove, insert, begin_from, publish_from, read_from, finish_from, message_from, deliver_from,
  step, run, start,
}

-- is the call between its entry and the end of its `finally`?
unfoldable pub is_active : Phase → Bool
is_active registered = true
is_active waiting = true
is_active (returning a) = true
is_active _ = false

unfoldable pub result : Phase → Option Ack
result (returning a) = a
result (returned a) = a
result _ = none

pub at_ind :
    {A : Type 0} (P : ℕ → A → Type 0) (k : ℕ) (v : A) (f : ℕ → A)
    → P k v
    → ((j : ℕ) → P j (f j))
    → (j : ℕ) → P j (at k v f j)
unfolding at
at_ind P k v f p h j = elim (Bool-cases (k == j)) as (λ x. P j (if k == j then v else f j)) [
  | inl e ↦ rw e (rw (← (==_iff k j).0 e) p)
  | inr e ↦ rw e (h j)
]

pub at_self : {A : Type 0} (k : ℕ) (v : A) (f : ℕ → A) → at k v f k ≡ v
unfolding at
at_self k v f = let e : (k == k) ≡ true = ground arith in rw e refl

module _ (uuid : ℕ → ℕ) where
  -- the ack, if there is one, is for the command of call k
  unfoldable pub IsFor : ℕ → Option Ack → Type 0
  IsFor k none = Unit
  IsFor k (some a) = a.command_id ≡ uuid k

  unfoldable pub IsHeldFor : Callback → Type 0
  IsHeldFor free = Unit
  IsHeldFor (holding k a) = a.command_id ≡ uuid k

  unfoldable pub IsEntry : (ℕ → Phase) → ℕ × ℕ → Type 0
  IsEntry calls (c, k) = (c ≡ uuid k) × (is_active (calls k) ≡ true)

  pub record IsSound (s : State) : Type 0 where
    pub entries : All (IsEntry s.calls) s.pending
    pub acks : (k : ℕ) → IsFor k (s.acks k)
    pub results : (k : ℕ) → IsFor k (result (s.calls k))
    pub callback : IsHeldFor s.callback

  -- every entry keeps an active call when call k becomes active
  entries_at :
      (k : ℕ) (p : Phase) (calls : ℕ → Phase) (l : List (ℕ × ℕ))
      → is_active p ≡ true
      → All (IsEntry calls) l
      → All (IsEntry (at k p calls)) l
  unfolding IsEntry at
  entries_at k p calls [] a h = tt
  entries_at k p calls ((c, j) ∷ l) a ((e, b), h) =
      let q : is_active (if k == j then p else calls j) ≡ true = elim (Bool-cases (k == j)) [
        | inl t ↦ rw t a
        | inr t ↦ rw t b
      ] in
      ((e, q), entries_at k p calls l a h)

  -- the entries without that of call k do not depend on it
  entries_remove :
      (k : ℕ) (p : Phase) (calls : ℕ → Phase) (l : List (ℕ × ℕ))
      → All (IsEntry calls) l
      → All (IsEntry (at k p calls)) (remove (uuid k) l)
  unfolding IsEntry at remove
  entries_remove k p calls [] h = tt
  entries_remove k p calls ((c, j) ∷ l) ((e, b), h) =
      elim (Bool-cases (c == uuid k))
        as (λ x. All (IsEntry (at k p calls)) (remove (uuid k) ((c, j) ∷ l))) [
          | inl t ↦ rw t (entries_remove k p calls l h)
          | inr t ↦
              let q : is_active (if k == j then p else calls j) ≡ true =
                elim (Bool-cases (k == j)) [
                  | inl u ↦ absurd (ground (arith, t, e, ap uuid ((==_iff k j).0 u)))
                  | inr u ↦ rw u b
                ] in
              rw t ((e, q), entries_remove k p calls l h)
        ]

  lookup_lem :
      (c k : ℕ) (calls : ℕ → Phase) (l : List (ℕ × ℕ))
      → lookup c l ≡ some k
      → All (IsEntry calls) l
      → c ≡ uuid k
  unfolding lookup IsEntry
  lookup_lem c k calls [] h a = cc
  lookup_lem c k calls ((i, j) ∷ l) h ((e, b), a) = elim (Bool-cases (i == c)) [
    | inl t ↦ let q : j ≡ k = ground (arith, h, t) in sym ((==_iff i c).0 t) ∙ e ∙ ap uuid q
    | inr t ↦ lookup_lem c k calls l (ground (arith, h, t)) a
  ]

  results_at :
      (k : ℕ) (p : Phase) (calls : ℕ → Phase)
      → IsFor k (result p)
      → ((j : ℕ) → IsFor j (result (calls j)))
      → (j : ℕ) → IsFor j (result (at k p calls j))
  results_at k p calls h r = at_ind (λ j q. IsFor j (result q)) k p calls h r

  acks_at :
      (k : ℕ) (o : Option Ack) (acks : ℕ → Option Ack)
      → IsFor k o
      → ((j : ℕ) → IsFor j (acks j))
      → (j : ℕ) → IsFor j (at k o acks j)
  acks_at k o acks h r = at_ind IsFor k o acks h r

  -- no entry depends on a call that is not active
  entries_other :
      (k : ℕ) (p : Phase) (calls : ℕ → Phase) (l : List (ℕ × ℕ))
      → is_active (calls k) ≡ false
      → All (IsEntry calls) l
      → All (IsEntry (at k p calls)) l
  unfolding IsEntry at
  entries_other k p calls [] n h = tt
  entries_other k p calls ((c, j) ∷ l) n ((e, b), h) =
      let q : is_active (if k == j then p else calls j) ≡ true = elim (Bool-cases (k == j)) [
        | inl u ↦ absurd (ground (arith, n, b, ap (λ i. is_active (calls i)) ((==_iff k j).0 u)))
        | inr u ↦ rw u b
      ] in
      ((e, q), entries_other k p calls l n h)

  begin-IsSound :
      (p : Phase) (k : ℕ) (s : State) → s.calls k ≡ p → IsSound s → IsSound (begin_from uuid p k s)
  unfolding begin_from IsFor result is_active insert IsEntry at
  begin-IsSound idle k s e h = elim (Bool-cases s.connected) [
    | inl t ↦ rw t (record {
      entries = (
        (refl, ap is_active (at_self k registered s.calls)),
        entries_remove k registered s.calls s.pending h.entries,
      );
      acks = acks_at k none s.acks tt h.acks;
      results = results_at k registered s.calls tt h.results;
      callback = h.callback;
    })
    | inr t ↦ rw t (record {
      entries = entries_other k refused s.calls s.pending (ap is_active e) h.entries;
      acks = h.acks;
      results = results_at k refused s.calls tt h.results;
      callback = h.callback;
    })
  ]
  begin-IsSound p k s e h = h

  publish-IsSound :
      (p : Phase) (k : ℕ) (b : Bool) (s : State) → IsSound s → IsSound (publish_from uuid p k b s)
  unfolding publish_from IsFor result is_active
  publish-IsSound registered k true s h = record {
    entries = entries_at k waiting s.calls s.pending refl h.entries;
    acks = h.acks;
    results = results_at k waiting s.calls tt h.results;
    callback = h.callback;
  }
  publish-IsSound registered k false s h = record {
    entries = entries_remove k refused s.calls s.pending h.entries;
    acks = h.acks;
    results = results_at k refused s.calls tt h.results;
    callback = h.callback;
  }
  publish-IsSound p k b s h = h

  read-IsSound : (p : Phase) (k : ℕ) (s : State) → IsSound s → IsSound (read_from uuid p k s)
  unfolding read_from result is_active
  read-IsSound waiting k s h = record {
    entries = entries_at k (returning (s.acks k)) s.calls s.pending refl h.entries;
    acks = h.acks;
    results = results_at k (returning (s.acks k)) s.calls (h.acks k) h.results;
    callback = h.callback;
  }
  read-IsSound p k s h = h

  returned_lem :
      (k : ℕ) (a : Option Ack) (p : Phase) → p ≡ returning a → IsFor k (result p) → IsFor k a
  unfolding result
  returned_lem k a p e h = let q : result p ≡ a = ap result e in rw (← q) h

  finish-IsSound :
      (p : Phase) (k : ℕ) (s : State) → s.calls k ≡ p → IsSound s → IsSound (finish_from uuid p k s)
  unfolding finish_from result
  finish-IsSound (returning a) k s e h = record {
    entries = entries_remove k (returned a) s.calls s.pending h.entries;
    acks = h.acks;
    results =
        results_at k (returned a) s.calls (returned_lem k a (s.calls k) e (h.results k)) h.results;
    callback = h.callback;
  }
  finish-IsSound p k s e h = h

  held_lem :
      (k : ℕ) (a : Ack) (c : Callback) → c ≡ holding k a → IsHeldFor c → a.command_id ≡ uuid k
  unfolding IsHeldFor
  held_lem k a free e h = cc
  held_lem k a (holding j b) e h =
      let p : b ≡ a = cc in let q : j ≡ k = cc in ap (λ x. x.command_id) (sym p) ∙ h ∙ ap uuid q

  carry : (k : ℕ) (o o' : Option Ack) → o ≡ o' → IsFor k o → IsFor k o'
  carry k o o' e h = rw (← e) h

  own_lem :
      (k : ℕ) (a : Ack) (p : Phase)
      → p ≡ returned (some a)
      → IsFor k (result p)
      → a.command_id ≡ uuid k
  unfolding result IsFor
  own_lem k a p e h = carry k (result p) (some a) (ap result e) h

  none_left :
      (calls : ℕ → Phase) (l : List (ℕ × ℕ))
      → ((k : ℕ) → is_active (calls k) ≡ false)
      → All (IsEntry calls) l
      → l ≡ []
  unfolding IsEntry
  none_left calls [] n h = refl
  none_left calls ((c, k) ∷ l) n ((e, b), h) = absurd (ground (arith, n k, b))

  found-IsSound :
      (a : Ack) (o : Option ℕ) (s : State)
      → lookup a.command_id s.pending ≡ o
      → IsSound s
      → IsSound (elim o [ none ↦ s | some k ↦ record s { callback = holding k a } ])
  unfolding IsHeldFor
  found-IsSound a none s e h = h
  found-IsSound a (some k) s e h = record {
    entries = h.entries;
    acks = h.acks;
    results = h.results;
    callback = lookup_lem a.command_id k s.calls s.pending e h.entries;
  }

  message-IsSound :
      (c : Callback) (a : Option Ack) (s : State) → IsSound s → IsSound (message_from uuid c a s)
  unfolding message_from
  message-IsSound free (some a) s h = found-IsSound a (lookup a.command_id s.pending) s refl h
  message-IsSound c a s h = h

  deliver-IsSound :
      (c : Callback) (s : State) → s.callback ≡ c → IsSound s → IsSound (deliver_from uuid c s)
  unfolding deliver_from IsHeldFor IsFor
  deliver-IsSound (holding k a) s e h = record {
    entries = h.entries;
    acks = acks_at k (some a) s.acks (held_lem k a s.callback e h.callback) h.acks;
    results = h.results;
    callback = tt;
  }
  deliver-IsSound free s e h = h

  connected-IsSound : (b : Bool) (s : State) → IsSound s → IsSound (record s { connected = b })
  connected-IsSound b s h = record {
    entries = h.entries;
    acks = h.acks;
    results = h.results;
    callback = h.callback;
  }

  step-IsSound : (a : Action) (s : State) → IsSound s → IsSound (step uuid a s)
  unfolding step
  step-IsSound (begin k) s h = begin-IsSound (s.calls k) k s refl h
  step-IsSound (publish k b) s h = publish-IsSound (s.calls k) k b s h
  step-IsSound (read k) s h = read-IsSound (s.calls k) k s h
  step-IsSound (finish k) s h = finish-IsSound (s.calls k) k s refl h
  step-IsSound (message a) s h = message-IsSound s.callback a s h
  step-IsSound deliver s h = deliver-IsSound s.callback s refl h
  step-IsSound (connect true) s h = h
  step-IsSound (connect false) s h = connected-IsSound true s h
  step-IsSound disconnect s h = connected-IsSound false s h

  run-IsSound : (l : List Action) (s : State) → IsSound s → IsSound (run uuid l s)
  unfolding run
  run-IsSound [] s h = h
  run-IsSound (a ∷ l) s h = run-IsSound l (step uuid a s) (step-IsSound a s h)

  start-IsSound : IsSound start
  unfolding start IsFor result IsHeldFor
  start-IsSound = record { entries = tt; acks = λ k. tt; results = λ k. tt; callback = tt }

  -- In every run of any number of calls, with any acks at any time, a call of `execute` that returned
  -- an ack returned one that carries the id of its own command.
  pub own_ack :
      (l : List Action) (k : ℕ) (a : Ack)
      → (run uuid l start).calls k ≡ returned (some a)
      → a.command_id ≡ uuid k
  own_ack l k a h =
      own_lem k a ((run uuid l start).calls k) h ((run-IsSound l start start-IsSound).results k)

  -- In every run, the gateway's table has no entry left when no call is in progress.
  pub no_entry_left :
      (l : List Action)
      → ((k : ℕ) → is_active ((run uuid l start).calls k) ≡ false)
      → (run uuid l start).pending ≡ []
  no_entry_left l h =
      none_left (run uuid l start).calls (run uuid l start).pending h
        (run-IsSound l start start-IsSound).entries
