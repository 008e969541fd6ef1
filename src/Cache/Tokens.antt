-- ===== src/Cache/Tokens.antt =====
-- base/src/cache/mod.rs: which keys have a token after a command.
use pigs.Prelude.{
  ℕ, ◌≤◌, Bool, true, false, Option, none, some, List, [], ◌∷◌, ◌++◌, ◌==◌, if◌then◌else◌, ◌≡◌,
  refl, ap, ◌∙◌, subst, Returns, Returns-mono, Bool-cases, inl, inr, ==_iff, arith,
}
use pigs.Cache.{
  CachedValue, DelayCommand, insert_command, remove_command, refresh_command, DelayQueue, Cache,
  drop_token, reset_token, track, handle,
}
use pigs.Cache.Sound.{IsSound, IsShort}

-- Whether a key has a token once the command has been handled, and all of them.
abbrev pub effect : DelayCommand → ℕ → Bool → Bool
effect (insert_command key none) k b = if key == k then false else b
effect (insert_command key (some ttl)) k b = if key == k then true else b
effect (remove_command key) k b = if key == k then false else b
effect (refresh_command key ttl) k b = b

abbrev pub will_track : List DelayCommand → ℕ → Bool → Bool
will_track [] k b = b
will_track (command ∷ rest) k b = will_track rest k (effect command k b)

abbrev pub has_token : Option ℕ → Bool
has_token none = false
has_token (some t) = true

pub will_track-append :
    (xs : List DelayCommand) (command : DelayCommand) (k : ℕ) (b : Bool)
    → will_track (xs ++ command ∷ []) k b ≡ effect command k (will_track xs k b)
will_track-append [] command k b = refl
will_track-append (x ∷ xs) command k b = will_track-append xs command k (effect x k b)

pub effect-insert :
    (key j ttl : ℕ) (o : Option ℕ) (b : Bool)
    → (key == j) ≡ true
    → o ≡ some ttl
    → effect (insert_command key o) j b ≡ true
effect-insert key j ttl none b here e = absurd (ground (arith, e))
effect-insert key j ttl (some t) b here e = rw here refl

pub effect-other :
    (key j : ℕ) (o : Option ℕ) (b : Bool)
    → (key == j) ≡ false
    → effect (insert_command key o) j b ≡ b
effect-other key j none b away = rw away refl
effect-other key j (some t) b away = rw away refl

pub Returns-both :
    {A : Type 0} (P Q R : A → Type 0) (m : Option A)
    → ((a : A) → P a → Q a → R a)
    → Returns m P
    → Returns m Q
    → Returns m R
Returns-both P Q R none k p q = absurd p
Returns-both P Q R (some a) k p q = k a p q

module _ (d : DelayQueue) (has_room : List CachedValue → Bool) where
  -- What the handling of a command leaves: `f` says of every key whether it has a token then.
  pub record Handled (f : ℕ → Bool → Bool) (c : Cache d.Queue) (c1 : Cache d.Queue) : Type 0 where
    pub same_map : c1.map ≡ c.map
    pub same_commands : c1.commands ≡ c.commands
    pub same_stopped : c1.stopped ≡ c.stopped
    pub tokens : (k : ℕ) → has_token (c1.key_map k) ≡ f k (has_token (c.key_map k))

  abbrev dropped : ℕ → ℕ → Bool → Bool
  dropped key k b = if key == k then false else b

  abbrev tracked_too : ℕ → ℕ → Bool → Bool
  tracked_too key k b = if key == k then true else b

  has_token-at :
      (c : Cache d.Queue) (key k : ℕ) (o : Option ℕ)
      → c.key_map key ≡ o
      → (key == k) ≡ true
      → has_token (c.key_map k) ≡ has_token o
  has_token-at c key k o there here =
      ap has_token (subst (λ j. c.key_map j ≡ o) ((==_iff key k).0 here) there)

  drop_token-Handled :
      (c : Cache d.Queue) (key : ℕ) (o : Option ℕ)
      → IsSound d has_room c
      → c.key_map key ≡ o
      → Returns (drop_token d has_room c key o) (Handled (dropped key) c)
  unfolding drop_token
  drop_token-Handled c key none h there = record {
    same_map = refl;
    same_commands = refl;
    same_stopped = refl;
    tokens = λ k. elim (Bool-cases (key == k)) [
      | inl here ↦ rw here (has_token-at c key k none there here)
      | inr away ↦ rw away refl
    ];
  }
  drop_token-Handled c key (some t) h there =
      let (w, old) = h.held key t there in
      let (q, removed, same) = d.holds-remove c.queue t key w old in
      rw removed (record {
        same_map = refl;
        same_commands = refl;
        same_stopped = refl;
        tokens = λ k. ground arith;
      })

  reset_token-Handled :
      (c : Cache d.Queue) (key now ttl : ℕ) (o : Option ℕ)
      → ttl ≤ d.longest
      → IsSound d has_room c
      → c.key_map key ≡ o
      → Returns (reset_token d has_room c now ttl o) (Handled (λ k b. b) c)
  unfolding reset_token
  reset_token-Handled c key now ttl none short h there = record {
    same_map = refl;
    same_commands = refl;
    same_stopped = refl;
    tokens = λ k. refl;
  }
  reset_token-Handled c key now ttl (some t) short h there =
      let (w0, old) = h.held key t there in
      let (q, done, same) = d.holds-reset c.queue t key w0 now ttl short old in
      rw done
        (record { same_map = refl; same_commands = refl; same_stopped = refl; tokens = λ k. refl })

  track-Handled :
      (c : Cache d.Queue) (key now ttl : ℕ) (o : Option ℕ)
      → ttl ≤ d.longest
      → IsSound d has_room c
      → c.key_map key ≡ o
      → Returns (track d has_room c key now ttl o) (Handled (tracked_too key) c)
  unfolding track
  track-Handled c key now ttl none short h there =
      let (q, t, done, fresh, same) = d.holds-insert c.queue key now ttl short in
      rw done (record {
        same_map = refl;
        same_commands = refl;
        same_stopped = refl;
        tokens = λ k. ground arith;
      })
  track-Handled c key now ttl (some t) short h there =
      Returns-mono (Handled (λ k b. b) c) (Handled (tracked_too key) c)
        (reset_token d has_room c now ttl (some t))
        (λ c1 done. record {
          same_map = done.same_map;
          same_commands = done.same_commands;
          same_stopped = done.same_stopped;
          tokens = λ k. elim (Bool-cases (key == k)) [
            | inl here ↦ rw here (done.tokens k ∙ has_token-at c key k (some t) there here)
            | inr away ↦ rw away (done.tokens k)
          ];
        })
        (reset_token-Handled c key now ttl (some t) short h there)

  pub handle-Handled :
      (c : Cache d.Queue) (now : ℕ) (command : DelayCommand)
      → IsShort d.longest command
      → IsSound d has_room c
      → Returns (handle d has_room c now command) (Handled (effect command) c)
  unfolding handle
  handle-Handled c now (insert_command key none) short h =
      drop_token-Handled c key (c.key_map key) h refl
  handle-Handled c now (insert_command key (some ttl)) short h =
      track-Handled c key now ttl (c.key_map key) short h refl
  handle-Handled c now (remove_command key) short h =
      drop_token-Handled c key (c.key_map key) h refl
  handle-Handled c now (refresh_command key ttl) short h =
      reset_token-Handled c key now ttl (c.key_map key) short h refl
