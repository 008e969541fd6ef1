-- ===== src/Cache/Sound.antt =====
-- base/src/cache/mod.rs: the purge task does not panic on times that the delay queue takes.
use pigs.Prelude.{
  ℕ, ◌+◌, ◌≤◌, Bool, Option, none, some, List, [], ◌∷◌, All, All-append, if_intro, ◌≡◌, refl, sym,
  subst, update, Returns, Returns-bind, Returns-mono,
}
use pigs.Cache.{
  CachedValue, DelayCommand, insert_command, remove_command, refresh_command, DelayQueue, Cache,
  init, send, store, take_value, drop_token, reset_token, track, handle, receive, deliver, expire,
  stop, Event, stores, sends, takes, receives, expires, cancelled, step, run,
}
use pigs.Cache.Agree.{Agree, Agree-empty, Agree-insert, Agree-reset, Agree-remove}

-- The delay queue takes the time to live that the command has.
abbrev pub IsShort : (longest : ℕ) → DelayCommand → Type 0
IsShort longest (insert_command key none) = Unit {0}
IsShort longest (insert_command key (some ttl)) = ttl ≤ longest
IsShort longest (remove_command key) = Unit {0}
IsShort longest (refresh_command key ttl) = ttl ≤ longest

abbrev pub SendsShort : (longest : ℕ) → Event → Type 0
SendsShort longest (stores key value) = Unit {0}
SendsShort longest (sends command) = IsShort longest command
SendsShort longest (takes key) = Unit {0}
SendsShort longest (receives now) = Unit {0}
SendsShort longest (expires now) = Unit {0}
SendsShort longest cancelled = Unit {0}

module _ (d : DelayQueue) (has_room : List CachedValue → Bool) where
  -- The state of the purge task is sound.
  abbrev pub IsSound : Cache d.Queue → Type 0
  IsSound c = Agree d c.queue c.key_map

  abbrev pub Keeps : Cache d.Queue → Cache d.Queue → Type 0
  Keeps c c1 = IsSound c1 × (c1.commands ≡ c.commands)

  -- It is, and so are the commands that it has to receive.
  abbrev pub IsSafe : Cache d.Queue → Type 0
  IsSafe c = IsSound c × All (IsShort d.longest) c.commands

  drop_token-Keeps :
      (c : Cache d.Queue) (key : ℕ) (o : Option ℕ)
      → IsSound c
      → c.key_map key ≡ o
      → Returns (drop_token d has_room c key o) (Keeps c)
  unfolding drop_token
  drop_token-Keeps c key none h there = (h, refl)
  drop_token-Keeps c key (some t) h there =
      let (w, old) = h.held key t there in
      let (q, removed, same) = d.holds-remove c.queue t key w old in
      rw removed (Agree-remove d c.queue q c.key_map key t h there same, refl)

  reset_token-Keeps :
      (c : Cache d.Queue) (key now ttl : ℕ) (o : Option ℕ)
      → ttl ≤ d.longest
      → IsSound c
      → c.key_map key ≡ o
      → Returns (reset_token d has_room c now ttl o) (Keeps c)
  unfolding reset_token
  reset_token-Keeps c key now ttl none short h there = (h, refl)
  reset_token-Keeps c key now ttl (some t) short h there =
      let (w0, old) = h.held key t there in
      let (q, done, same) = d.holds-reset c.queue t key w0 now ttl short old in
      rw done (Agree-reset d c.queue q c.key_map key t (now + ttl) h there same, refl)

  track-Keeps :
      (c : Cache d.Queue) (key now ttl : ℕ) (o : Option ℕ)
      → ttl ≤ d.longest
      → IsSound c
      → c.key_map key ≡ o
      → Returns (track d has_room c key now ttl o) (Keeps c)
  unfolding track
  track-Keeps c key now ttl none short h free =
      let (q, t, done, fresh, same) = d.holds-insert c.queue key now ttl short in
      rw done (Agree-insert d c.queue q c.key_map key t (now + ttl) h free fresh same, refl)
  track-Keeps c key now ttl (some t) short h there =
      reset_token-Keeps c key now ttl (some t) short h there

  pub handle-Keeps :
      (c : Cache d.Queue) (now : ℕ) (command : DelayCommand)
      → IsShort d.longest command
      → IsSound c
      → Returns (handle d has_room c now command) (Keeps c)
  unfolding handle
  handle-Keeps c now (insert_command key none) short h =
      drop_token-Keeps c key (c.key_map key) h refl
  handle-Keeps c now (insert_command key (some ttl)) short h =
      track-Keeps c key now ttl (c.key_map key) short h refl
  handle-Keeps c now (remove_command key) short h = drop_token-Keeps c key (c.key_map key) h refl
  handle-Keeps c now (refresh_command key ttl) short h =
      reset_token-Keeps c key now ttl (c.key_map key) short h refl

  receive-IsSafe :
      (c : Cache d.Queue) (now : ℕ) (commands : List DelayCommand)
      → c.commands ≡ commands
      → IsSafe c
      → Returns (receive d has_room c now commands) IsSafe
  unfolding receive
  receive-IsSafe c now [] eq h = h
  receive-IsSafe c now (command ∷ rest) eq (sound, short) =
      let c0 = record c { commands = rest } in
      let (first, others) = subst (All (IsShort d.longest)) eq short in
      Returns-mono (Keeps c0) IsSafe (handle d has_room c0 now command)
        (λ c1 done. (done.0, subst (All (IsShort d.longest)) (sym done.1) others))
        (handle-Keeps c0 now command first sound)

  deliver-IsSound :
      (c : Cache d.Queue) (key : ℕ) (o : Option CachedValue)
      → IsSound c
      → Keeps c (deliver d has_room c key o)
  unfolding deliver take_value
  deliver-IsSound c key none h = (h, refl)
  deliver-IsSound c key (some value) h = if_intro (has_room c.calls) (Keeps c) (h, refl) (h, refl)

  pub expire-Keeps :
      (c : Cache d.Queue) (now : ℕ) (o : Option (ℕ × d.Queue))
      → IsSound c
      → d.next c.queue now ≡ o
      → Keeps c (expire d has_room c o)
  unfolding expire
  expire-Keeps c now none h none_due = (h, refl)
  expire-Keeps c now (some (key, q)) h due =
      let (t, w, old, late, same) = d.holds-next c.queue q now key due in
      deliver-IsSound (record c { queue = q; key_map = update c.key_map key none }) key (c.map key)
        (Agree-remove d c.queue q c.key_map key t h (h.known t key w old) same)

  step-IsSafe :
      (c : Cache d.Queue) (event : Event)
      → SendsShort d.longest event
      → IsSafe c
      → Returns (step d has_room c event) IsSafe
  unfolding step stop store take_value send
  step-IsSafe c (stores key value) short h = h
  step-IsSafe c (sends command) short h =
      if_intro c.stopped IsSafe h
        (h.0, All-append (IsShort d.longest) c.commands (command ∷ []) h.1 (short, _))
  step-IsSafe c (takes key) short h = h
  step-IsSafe c (receives now) short h =
      if_intro c.stopped (λ r. Returns r IsSafe) h (receive-IsSafe c now c.commands refl h)
  step-IsSafe c (expires now) short h =
      let done = expire-Keeps c now (d.next c.queue now) h.0 refl in
      if_intro c.stopped IsSafe h (done.0, subst (All (IsShort d.longest)) (sym done.1) h.1)
  step-IsSafe c cancelled short h =
      if_intro c.stopped IsSafe h (Agree-empty d (d.clear c.queue) (d.holds-clear c.queue), _)

  run-IsSafe :
      (c : Cache d.Queue) (events : List Event)
      → All (SendsShort d.longest) events
      → IsSafe c
      → Returns (run d has_room c events) IsSafe
  unfolding run
  run-IsSafe c [] short h = h
  run-IsSafe c (event ∷ events) (first, others) h =
      Returns-bind IsSafe IsSafe (step d has_room c event) (λ c1. run d has_room c1 events)
        (step-IsSafe c event first h) (λ c1 h1. run-IsSafe c1 events others h1)

  -- From the empty cache, no sequence of the clients' parts and of the purge task's rounds, at any
  -- times and in any order, makes the task panic, if no time to live in the commands sent is longer
  -- than the delay queue takes for sure; afterwards the task's tokens are those of the delay queue's
  -- entries, each with its key.
  pub run-init-IsSound :
      (events : List Event)
      → All (SendsShort d.longest) events
      → Returns (run d has_room (init d has_room) events) IsSound
  unfolding init
  run-init-IsSound events short =
      Returns-mono IsSafe IsSound (run d has_room (init d has_room) events) (λ c h. h.0)
        (run-IsSafe (init d has_room) events short (Agree-empty d d.new d.holds-new, _))
