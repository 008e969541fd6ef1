-- ===== src/Cache/Tests.antt =====
-- base/src/cache/mod.rs: the cache on small inputs, over a delay queue that is a list.
use pigs.Prelude.{
  ℕ, suc, ◌+◌, ◌≤◌, Bool, true, false, Option, none, some, List, [], ◌∷◌, ◌==◌, leb, if◌then◌else◌,
  ◌≡◌, refl, sym, ap, ◌∙◌, subst, update, Returns, Bool-cases, inl, inr, arith, lookup, erase, put,
  lookup-erase, lookup-put,
}
use pigs.Cache.{
  CachedValue, insert_command, DelayQueue, Cache, init, send, store, take_value, insert, remove,
  refresh_ttl, refresh_value, refresh, drop_token, reset_token, track, handle, receive, deliver,
  expire, stop, stores, sends, receives, expires, step, run, Call, insert_call, remove_call,
  refresh_call, receive_round, expire_round, serve, serve_all,
}
use pigs.Cache.Sound.{IsSound, run-init-IsSound}
use pigs.Cache.Waiting.{IsTracked, init-IsTracked, serve_all-IsTracked}

abbrev Entries : Type 0
Entries = List (ℕ × (ℕ × ℕ))

-- A token that the list has not.
abbrev fresh_token : Entries → ℕ
fresh_token [] = 0
fresh_token (x ∷ q) = suc (x.0 + fresh_token q)

fresh_absent : (q : Entries) (t : ℕ) → fresh_token q ≤ t → lookup q t ≡ none
fresh_absent [] t h = refl
fresh_absent (x ∷ q) t h = let rest = fresh_absent q t (omega arith) in ground (arith, rest)

abbrev reset_at : Entries → ℕ → ℕ → Option (ℕ × ℕ) → Option Entries
reset_at q t w none = none
reset_at q t w (some v) = some (put q t (v.0, w))

abbrev remove_at : Entries → ℕ → Option (ℕ × ℕ) → Option Entries
remove_at q t none = none
remove_at q t (some v) = some (erase q t)

abbrev due_at : Entries → ℕ → ℕ → Option (ℕ × Entries) → Option (ℕ × ℕ) → Option (ℕ × Entries)
due_at q t now rest none = rest
due_at q t now rest (some v) = if leb v.1 now then some (v.0, erase q t) else rest

-- The first entry that is due, if there is one.
abbrev due : Entries → Entries → ℕ → Option (ℕ × Entries)
due [] q now = none
due (x ∷ xs) q now = let rest = due xs q now in due_at q x.0 now rest (lookup q x.0)

abbrev Found : Entries → Entries → ℕ → ℕ → Type 0
Found q q1 now key =
    (t : ℕ) × (w : ℕ) × (lookup q t ≡ some (key, w))
    × (w ≤ now)
    × ((u : ℕ) → lookup q1 u ≡ (if t == u then none else lookup q u))

due_at-some :
    (q q1 : Entries) (now key t : ℕ) (rest : Option (ℕ × Entries)) (o : Option (ℕ × ℕ))
    → lookup q t ≡ o
    → due_at q t now rest o ≡ some (key, q1)
    → (rest ≡ some (key, q1) → Found q q1 now key)
    → Found q q1 now key
due_at-some q q1 now key t rest none held e go = go e
due_at-some q q1 now key t rest (some v) held e go = elim (Bool-cases (leb v.1 now)) [
  | inl late ↦
      let key_is : v.0 ≡ key = ground (arith, e, late) in
      let left : erase q t ≡ q1 = ground (arith, e, late) in
      (
        t,
        v.1,
        held ∙ ap (λ k. some (k, v.1)) key_is,
        ground (arith, late),
        λ u. ap (λ l. lookup l u) (sym left) ∙ lookup-erase q t u,
      )
  | inr early ↦ go (ground (arith, e, early))
]

due-some : (xs q q1 : Entries) (now key : ℕ) → due xs q now ≡ some (key, q1) → Found q q1 now key
due-some [] q q1 now key e = absurd (ground (arith, e))
due-some (x ∷ xs) q q1 now key e =
    due_at-some q q1 now key x.0 (due xs q now) (lookup q x.0) refl e (due-some xs q q1 now key)

allowed :
    {A : Type 0} (ttl : ℕ) (o : Option A) → ttl ≤ 1000 → (if leb ttl 1000 then o else none) ≡ o
allowed ttl o h = ground (arith, h)

-- A time of more than 1000 panics.
abbrev list_queue : DelayQueue
list_queue = record {
  Queue = Entries;
  new = [];
  longest = 1000;
  insert = λ q key now ttl.
      if leb ttl 1000 then some ((fresh_token q, (key, now + ttl)) ∷ q, fresh_token q) else none;
  reset = λ q t now ttl. if leb ttl 1000 then reset_at q t (now + ttl) (lookup q t) else none;
  remove = λ q t. remove_at q t (lookup q t);
  next = λ q now. due q q now;
  clear = λ q. [];
  holds = lookup;
  holds-new = λ t. refl;
  holds-clear = λ q t. refl;
  holds-insert = λ q key now ttl h. (
    (fresh_token q, (key, now + ttl)) ∷ q,
    fresh_token q,
    allowed ttl _ h,
    fresh_absent q (fresh_token q) (omega arith),
    λ u. refl,
  );
  holds-reset = λ q t key w0 now ttl h held. (
    put q t (key, now + ttl),
    allowed ttl _ h ∙ ap (reset_at q t (now + ttl)) held,
    λ u. lookup-put q t u (key, now + ttl),
  );
  holds-remove = λ q t key w0 h. (erase q t, ap (remove_at q t) h, λ u. lookup-erase q t u);
  holds-next = λ q q1 now key e. due-some q q q1 now key e;
}

always : List CachedValue → Bool
always calls = true

abbrev old_value : CachedValue
old_value = record { content = 1; expire_ttl = some 5 }

abbrev new_value : CachedValue
new_value = record { content = 2; expire_ttl = some 50 }

abbrev lasting : CachedValue
lasting = record { content = 3; expire_ttl = none }

program : Unit {0}
unfolding init send store take_value insert remove refresh_ttl refresh_value refresh drop_token
    reset_token track handle receive deliver expire stop step run serve serve_all always
program = _

abbrev then_map : Option (Cache Entries) → ℕ → Option CachedValue
then_map none key = none
then_map (some c) key = c.map key

-- The key 7 is inserted again shortly before its first deadline, which passes before the second
-- command is received: the new value is gone.
early :
    then_map
      (serve_all list_queue always (init list_queue always) (
        insert_call 7 old_value
        ∷ receive_round 0
        ∷ insert_call 7 new_value
        ∷ expire_round 5
        ∷ receive_round 5
        ∷ []))
      7
    ≡ none
unfolding program
early = refl

-- Two insertions at the same time: the command of the one that stored first comes last. The value
-- has a time to live and no token.
forgotten :
    then_map
      (run list_queue always (init list_queue always) (
        stores 7 lasting
        ∷ stores 7 old_value
        ∷ sends (insert_command 7 (some 5))
        ∷ sends (insert_command 7 none)
        ∷ receives 0
        ∷ receives 0
        ∷ expires 90
        ∷ []))
      7
    ≡ some old_value
unfolding program
forgotten = refl

abbrev calls : List Call
calls = insert_call 7 old_value ∷ receive_round 0 ∷ refresh_call 7 ∷ receive_round 3 ∷ []

-- After the calls: the refreshed value waits for the time 8.
abbrev refreshed : Cache Entries
refreshed = record {
  map = update (λ key. none) 7 (some old_value);
  commands = [];
  calls = [];
  queue = (0, (7, 8)) ∷ [];
  key_map = update (λ key. none) 7 (some 0);
  stopped = false;
}

-- A client's time to live of 1001 ends the purge task, and nothing expires any more.
too_long :
    run list_queue always
      (init list_queue always)
      (sends (insert_command 7 (some 1001)) ∷ receives 0 ∷ [])
    ≡ none
unfolding program
too_long = refl

reached : serve_all list_queue always (init list_queue always) calls ≡ some refreshed
unfolding program
reached = refl

refreshed-IsTracked : IsTracked list_queue always refreshed
refreshed-IsTracked =
    subst (λ r. Returns r (IsTracked list_queue always)) reached
      (serve_all-IsTracked list_queue always (init list_queue always) calls
        ((λ ttl e. ground (arith, e)), _) (init-IsTracked list_queue always))

run-init-IsSound_example :
    Returns
      (run list_queue always
        (init list_queue always)
        (stores 7 old_value ∷ sends (insert_command 7 (some 5)) ∷ receives 0 ∷ expires 6 ∷ []))
      (IsSound list_queue always)
run-init-IsSound_example =
    run-init-IsSound list_queue always
      (stores 7 old_value ∷ sends (insert_command 7 (some 5)) ∷ receives 0 ∷ expires 6 ∷ [])
      (_, (omega arith, _))

serve_all-IsTracked_example :
    Returns
      (serve_all list_queue always refreshed (remove_call 7 ∷ receive_round 4 ∷ []))
      (IsTracked list_queue always)
serve_all-IsTracked_example =
    serve_all-IsTracked list_queue always refreshed (remove_call 7 ∷ receive_round 4 ∷ []) _
      refreshed-IsTracked
