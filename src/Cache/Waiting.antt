-- ===== src/Cache/Waiting.antt =====
-- base/src/cache/mod.rs: a value with a time to live has a token, or a command that will get it one.
use pigs.Prelude.{
  ℕ, ◌≤◌, All, All-append, Bool, true, false, Option, none, some, List, [], ◌∷◌, ◌++◌, ◌==◌,
  if_intro, ◌≡◌, refl, sym, ap, ap₂, ◌∙◌, subst, update, Returns, Returns-bind, Bool-cases, inl,
  inr, ==_iff, arith,
}
use pigs.Cache.{
  CachedValue, DelayCommand, insert_command, remove_command, refresh_command, DelayQueue, Cache,
  init, send, store, take_value, insert, remove, refresh_ttl, refresh_value, refresh, handle,
  receive, deliver, expire, step, Call, insert_call, remove_call, refresh_call, receive_round,
  expire_round, serve, serve_all,
}
use pigs.Cache.Tokens.{
  effect, will_track, has_token, will_track-append, effect-insert, effect-other, Returns-both,
  Handled, handle-Handled,
}
use pigs.Cache.Agree.{Agree-empty}
use pigs.Cache.Sound.{IsShort, IsSound, Keeps, handle-Keeps, expire-Keeps}

-- The delay queue takes the time to live of the value, if it has one.
abbrev pub LivesShort : (longest : ℕ) → CachedValue → Type 0
LivesShort longest value = (ttl : ℕ) → value.expire_ttl ≡ some ttl → ttl ≤ longest

abbrev pub InsertsShort : (longest : ℕ) → Call → Type 0
InsertsShort longest (insert_call key value) = LivesShort longest value
InsertsShort longest (remove_call key) = Unit {0}
InsertsShort longest (refresh_call key) = Unit {0}
InsertsShort longest (receive_round now) = Unit {0}
InsertsShort longest (expire_round now) = Unit {0}

insert-IsShort :
    (longest key : ℕ) (o : Option ℕ)
    → ((ttl : ℕ) → o ≡ some ttl → ttl ≤ longest)
    → IsShort longest (insert_command key o)
insert-IsShort longest key none h = _
insert-IsShort longest key (some ttl) h = h ttl refl

module _ (d : DelayQueue) (has_room : List CachedValue → Bool) where
  -- The task runs, a value with a time to live has a token, or will have when the commands have
  -- been handled, and the delay queue takes the times of the values and of the commands.
  pub record IsTracked (c : Cache d.Queue) : Type 0 where
    pub sound : IsSound d has_room c
    pub runs : c.stopped ≡ false
    pub short : All (IsShort d.longest) c.commands
    pub values :
        (key : ℕ) (value : CachedValue) → c.map key ≡ some value → LivesShort d.longest value
    pub tracked :
        (key ttl : ℕ) (value : CachedValue)
        → c.map key ≡ some value
        → value.expire_ttl ≡ some ttl
        → will_track c.commands key (has_token (c.key_map key)) ≡ true

  abbrev Tracked : Cache d.Queue → Type 0
  Tracked c =
      (key ttl : ℕ) (value : CachedValue)
      → c.map key ≡ some value
      → value.expire_ttl ≡ some ttl
      → will_track c.commands key (has_token (c.key_map key)) ≡ true

  sent-eq :
      (c : Cache d.Queue) (command : DelayCommand)
      → c.stopped ≡ false
      → send d has_room c command ≡ record c { commands = c.commands ++ command ∷ [] }
  unfolding send
  sent-eq c command running = simp running

  append-IsShort :
      (c : Cache d.Queue) (command : DelayCommand)
      → IsShort d.longest command
      → All (IsShort d.longest) c.commands
      → All (IsShort d.longest) (c.commands ++ command ∷ [])
  append-IsShort c command short h =
      All-append (IsShort d.longest) c.commands (command ∷ []) h (short, _)

  insert-IsTracked :
      (c : Cache d.Queue) (key : ℕ) (value : CachedValue)
      → LivesShort d.longest value
      → IsTracked c
      → IsTracked (insert d has_room c key value)
  unfolding insert store
  insert-IsTracked c key value lives h =
      let command = insert_command key value.expire_ttl in
      subst IsTracked (sym (sent-eq (store d has_room c key value) command h.runs)) (record {
        sound = h.sound;
        runs = h.runs;
        short =
            append-IsShort c command (insert-IsShort d.longest key value.expire_ttl lives) h.short;
        values = λ j v there. elim (Bool-cases (key == j)) [
          | inl here ↦
              let same : value ≡ v = ground (arith, there, here) in
              subst (LivesShort d.longest) same lives
          | inr away ↦ h.values j v (ground (arith, there, away))
        ];
        tracked = λ j ttl v there e.
            let b = has_token (c.key_map j) in
            will_track-append c.commands command j b ∙ elim (Bool-cases (key == j)) [
              | inl here ↦
                  let same : value ≡ v = ground (arith, there, here) in
                  effect-insert key j ttl value.expire_ttl (will_track c.commands j b) here
                    (ap (λ x. x.expire_ttl) same ∙ e)
              | inr away ↦
                  effect-other key j value.expire_ttl (will_track c.commands j b) away
                  ∙ h.tracked j ttl v (ground (arith, there, away)) e
            ];
      })

  remove-IsTracked :
      (c : Cache d.Queue) (key : ℕ) → IsTracked c → IsTracked (remove d has_room c key).1
  unfolding remove take_value
  remove-IsTracked c key h =
      subst (λ x. IsTracked (take_value d has_room x key))
        (sym (sent-eq c (remove_command key) h.runs))
        (record {
          sound = h.sound;
          runs = h.runs;
          short = append-IsShort c (remove_command key) _ h.short;
          values = λ j v there.
              let away : (key == j) ≡ false = ground (arith, there) in
              h.values j v (ground (arith, there, away));
          tracked = λ j ttl v there e.
              let away : (key == j) ≡ false = ground (arith, there) in
              let old : c.map j ≡ some v = ground (arith, there, away) in
              will_track-append c.commands (remove_command key) j (has_token (c.key_map j))
              ∙ effect-other key j none (will_track c.commands j (has_token (c.key_map j))) away
              ∙ h.tracked j ttl v old e;
        })

  refresh_ttl-IsTracked :
      (c : Cache d.Queue) (key : ℕ) (o : Option ℕ)
      → ((ttl : ℕ) → o ≡ some ttl → ttl ≤ d.longest)
      → IsTracked c
      → IsTracked (refresh_ttl d has_room c key o)
  unfolding refresh_ttl
  refresh_ttl-IsTracked c key none lives h = h
  refresh_ttl-IsTracked c key (some ttl) lives h =
      subst IsTracked (sym (sent-eq c (refresh_command key ttl) h.runs)) (record {
        sound = h.sound;
        runs = h.runs;
        short = append-IsShort c (refresh_command key ttl) (lives ttl refl) h.short;
        values = h.values;
        tracked = λ j ttl1 v there e.
            will_track-append c.commands (refresh_command key ttl) j (has_token (c.key_map j))
            ∙ h.tracked j ttl1 v there e;
      })

  refresh_value-IsTracked :
      (c : Cache d.Queue) (key : ℕ) (o : Option CachedValue)
      → c.map key ≡ o
      → IsTracked c
      → IsTracked (refresh_value d has_room c key o)
  unfolding refresh_value
  refresh_value-IsTracked c key none there h = h
  refresh_value-IsTracked c key (some value) there h =
      refresh_ttl-IsTracked c key value.expire_ttl (h.values key value there) h

  receive-IsTracked :
      (c : Cache d.Queue) (now : ℕ) (commands : List DelayCommand)
      → IsTracked c
      → c.commands ≡ commands
      → Returns (receive d has_room c now commands) IsTracked
  unfolding receive
  receive-IsTracked c now [] h eq = h
  receive-IsTracked c now (command ∷ rest) h eq =
      let c0 = record c { commands = rest } in
      let (first, others) = subst (All (IsShort d.longest)) eq h.short in
      Returns-both (Keeps d has_room c0) (Handled d has_room (effect command) c0) IsTracked
        (handle d has_room c0 now command)
        (λ c1 kept done. record {
          sound = kept.0;
          runs = done.same_stopped ∙ h.runs;
          short = subst (All (IsShort d.longest)) (sym kept.1) others;
          values = λ j v there. h.values j v (sym (ap (λ m. m j) done.same_map) ∙ there);
          tracked = λ j ttl v there e.
              let old : c.map j ≡ some v = sym (ap (λ m. m j) done.same_map) ∙ there in
              ap₂ (λ l b. will_track l j b) done.same_commands (done.tokens j)
              ∙ sym (ap (λ l. will_track l j (has_token (c.key_map j))) eq)
              ∙ h.tracked j ttl v old e;
        })
        (handle-Keeps d has_room c0 now command first h.sound)
        (handle-Handled d has_room c0 now command first h.sound)

  abbrev TrackedOff : (key : ℕ) → Cache d.Queue → Type 0
  TrackedOff key c =
      (j ttl : ℕ) (value : CachedValue)
      → (key == j) ≡ false
      → c.map j ≡ some value
      → value.expire_ttl ≡ some ttl
      → will_track c.commands j (has_token (c.key_map j)) ≡ true

  deliver-Tracked :
      (c : Cache d.Queue) (key : ℕ) (o : Option CachedValue)
      → c.map key ≡ o
      → TrackedOff key c
      → Tracked (deliver d has_room c key o)
  unfolding deliver take_value
  deliver-Tracked c key none gone h = λ j ttl v there e. elim (Bool-cases (key == j)) [
    | inl here ↦
        let none_there : c.map j ≡ none =
          subst (λ k. c.map k ≡ none) ((==_iff key j).0 here) gone in
        absurd (ground (arith, there, none_there))
    | inr away ↦ h j ttl v away there e
  ]
  deliver-Tracked c key (some value) gone h =
      let kept : Tracked (record c { map = update c.map key none }) = λ j ttl v there e.
        let away : (key == j) ≡ false = ground (arith, there) in
        h j ttl v away (ground (arith, there, away)) e in
      if_intro (has_room c.calls) Tracked kept kept

  deliver-runs :
      (c : Cache d.Queue) (key : ℕ) (o : Option CachedValue)
      → (deliver d has_room c key o).stopped ≡ c.stopped
  unfolding deliver take_value
  deliver-runs c key none = refl
  deliver-runs c key (some value) =
      if_intro (has_room c.calls) (λ (x : Cache d.Queue). x.stopped ≡ c.stopped) refl refl

  deliver-map :
      (c : Cache d.Queue) (key j : ℕ) (v : CachedValue) (o : Option CachedValue)
      → (deliver d has_room c key o).map j ≡ some v
      → c.map j ≡ some v
  unfolding deliver take_value
  deliver-map c key j v none there = there
  deliver-map c key j v (some value) there =
      let there1 : update c.map key none j ≡ some v =
        if_intro (has_room c.calls)
          (λ (x : Cache d.Queue). x.map j ≡ some v → update c.map key none j ≡ some v) (λ e. e)
          (λ e. e) there in
      ground (arith, there1)

  expire-IsTracked :
      (c : Cache d.Queue) (now : ℕ) (o : Option (ℕ × d.Queue))
      → IsTracked c
      → d.next c.queue now ≡ o
      → IsTracked (expire d has_room c o)
  unfolding expire
  expire-IsTracked c now none h due = h
  expire-IsTracked c now (some (key, q)) h due =
      let c0 = record c { queue = q; key_map = update c.key_map key none } in
      let kept = expire-Keeps d has_room c now (some (key, q)) h.sound due in
      record {
        sound = kept.0;
        runs = deliver-runs c0 key (c.map key) ∙ h.runs;
        short = subst (All (IsShort d.longest)) (sym kept.1) h.short;
        values = λ j v there. h.values j v (deliver-map c0 key j v (c.map key) there);
        tracked =
            deliver-Tracked c0 key (c.map key) refl
              (λ j ttl v away there e. rw away (h.tracked j ttl v there e));
      }

  serve-IsTracked :
      (c : Cache d.Queue) (call : Call)
      → InsertsShort d.longest call
      → IsTracked c
      → Returns (serve d has_room c call) IsTracked
  unfolding serve refresh step
  serve-IsTracked c (insert_call key value) lives h = insert-IsTracked c key value lives h
  serve-IsTracked c (remove_call key) lives h = remove-IsTracked c key h
  serve-IsTracked c (refresh_call key) lives h = refresh_value-IsTracked c key (c.map key) refl h
  serve-IsTracked c (receive_round now) lives h =
      if_intro c.stopped (λ r. Returns r IsTracked) h (receive-IsTracked c now c.commands h refl)
  serve-IsTracked c (expire_round now) lives h =
      if_intro c.stopped IsTracked h (expire-IsTracked c now (d.next c.queue now) h refl)

  -- If the calls that clients make one after the other, with the task's rounds between them at any
  -- times, insert only values whose times to live, where they have one, the delay queue takes for
  -- sure, then on a tracked cache they do not panic, and it stays tracked: the task runs, its tokens
  -- are those of the delay queue's entries, every value with a time to live has a token, or will
  -- have when the commands sent have been handled, and the queue takes the times of the values and
  -- of those commands.
  pub serve_all-IsTracked :
      (c : Cache d.Queue) (calls : List Call)
      → All (InsertsShort d.longest) calls
      → IsTracked c
      → Returns (serve_all d has_room c calls) IsTracked
  unfolding serve_all
  serve_all-IsTracked c [] lives h = h
  serve_all-IsTracked c (call ∷ calls) (first, others) h =
      Returns-bind IsTracked IsTracked (serve d has_room c call)
        (λ c1. serve_all d has_room c1 calls) (serve-IsTracked c call first h)
        (λ c1 h1. serve_all-IsTracked c1 calls others h1)

  pub init-IsTracked : IsTracked (init d has_room)
  unfolding init
  init-IsTracked = record {
    sound = Agree-empty d d.new d.holds-new;
    runs = refl;
    short = _;
    values = λ key value there. absurd (ground (arith, there));
    tracked = λ key ttl value there e. absurd (ground (arith, there));
  }
