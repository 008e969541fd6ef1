-- ===== src/Cache.antt =====
-- base/src/cache/mod.rs: the cache with a delay queue, its clients and its purge task. A key is a
-- number; an unbounded channel is the list of what has been sent and not yet received.
use pigs.Prelude.{
  ℕ, ◌+◌, ◌<◌, ◌≤◌, Bool, true, false, Option, none, some, List, [], ◌∷◌, ◌++◌, ◌==◌, if◌then◌else◌,
  ◌≡◌, update, ◌>>=◌,
}
pub mod Agree
pub mod Sound
pub mod Tokens
pub mod Waiting
mod Tests

pub record CachedValue : Type 0 where
  pub content : ℕ
  pub expire_ttl : Option ℕ

pub data DelayCommand : Type 0 where
  insert_command : (key : ℕ) (ttl : Option ℕ) → DelayCommand
  remove_command : (key : ℕ) → DelayCommand
  refresh_command : (key ttl : ℕ) → DelayCommand

-- The delay queue of tokio-util: values with deadlines under tokens. `holds` is what it has under a
-- token. `insert` and `reset` panic on a time that is too long, and are sure not to for one up to
-- `longest`; `reset` and `remove` panic on a token that it has not.
pub record DelayQueue : Type 1 where
  pub Queue : Type 0
  pub longest : ℕ
  pub new : Queue
  pub insert : Queue → (key now ttl : ℕ) → Option (Queue × ℕ)
  pub reset : Queue → (token now ttl : ℕ) → Option Queue
  pub remove : Queue → (token : ℕ) → Option Queue
  pub next : Queue → (now : ℕ) → Option (ℕ × Queue)
  pub clear : Queue → Queue
  pub holds : Queue → (token : ℕ) → Option (ℕ × ℕ)
  pub holds-new : (t : ℕ) → holds new t ≡ none
  pub holds-clear : (q : Queue) (t : ℕ) → holds (clear q) t ≡ none
  pub holds-insert :
      (q : Queue) (key now ttl : ℕ)
      → ttl ≤ longest
      → (q1 : Queue) × (t : ℕ) × (insert q key now ttl ≡ some (q1, t))
        × (holds q t ≡ none)
        × ((u : ℕ) → holds q1 u ≡ (if t == u then some (key, now + ttl) else holds q u))
  pub holds-reset :
      (q : Queue) (t key w0 now ttl : ℕ)
      → ttl ≤ longest
      → holds q t ≡ some (key, w0)
      → (q1 : Queue) × (reset q t now ttl ≡ some q1)
        × ((u : ℕ) → holds q1 u ≡ (if t == u then some (key, now + ttl) else holds q u))
  pub holds-remove :
      (q : Queue) (t key w0 : ℕ)
      → holds q t ≡ some (key, w0)
      → (q1 : Queue) × (remove q t ≡ some q1)
        × ((u : ℕ) → holds q1 u ≡ (if t == u then none else holds q u))
  pub holds-next :
      (q q1 : Queue) (now key : ℕ)
      → next q now ≡ some (key, q1)
      → (t : ℕ) × (w : ℕ) × (holds q t ≡ some (key, w))
        × (w ≤ now)
        × ((u : ℕ) → holds q1 u ≡ (if t == u then none else holds q u))

-- `map`, `commands` and `calls` are shared; `queue` and `key_map` are the purge task's. `calls` are
-- the values that the callback channel has taken.
pub record Cache (Queue : Type 0) : Type 0 where
  pub map : ℕ → Option CachedValue
  pub commands : List DelayCommand
  pub calls : List CachedValue
  pub queue : Queue
  pub key_map : ℕ → Option ℕ
  pub stopped : Bool

-- What a client does at one time, and the branches of the task's `select!`.
pub data Event : Type 0 where
  stores : (key : ℕ) → CachedValue → Event
  sends : DelayCommand → Event
  takes : (key : ℕ) → Event
  receives : (now : ℕ) → Event
  expires : (now : ℕ) → Event
  cancelled : Event

-- A client's call as a whole, or a round of the task.
pub data Call : Type 0 where
  insert_call : (key : ℕ) → CachedValue → Call
  remove_call : (key : ℕ) → Call
  refresh_call : (key : ℕ) → Call
  receive_round : (now : ℕ) → Call
  expire_round : (now : ℕ) → Call

-- `has_room` says whether the bounded callback channel takes one more value.
module _ (d : DelayQueue) (has_room : List CachedValue → Bool) where
  unfoldable pub init : Cache d.Queue
  init = record {
    map = λ key. none;
    commands = [];
    calls = [];
    queue = d.new;
    key_map = λ key. none;
    stopped = false;
  }

  -- The channel is closed when the task has ended.
  unfoldable pub send : Cache d.Queue → DelayCommand → Cache d.Queue
  send c command = if c.stopped then c else record c { commands = c.commands ++ command ∷ [] }

  unfoldable contains_key : Cache d.Queue → ℕ → Bool
  contains_key c key = elim (c.map key) [ none ↦ false | some value ↦ true ]

  unfoldable pub get : Cache d.Queue → ℕ → Option CachedValue
  get c key = c.map key

  unfoldable pub store : Cache d.Queue → ℕ → CachedValue → Cache d.Queue
  store c key value = record c { map = update c.map key (some value) }

  unfoldable pub take_value : Cache d.Queue → ℕ → Cache d.Queue
  take_value c key = record c { map = update c.map key none }

  unfoldable pub insert : Cache d.Queue → ℕ → CachedValue → Cache d.Queue
  insert c key value = send (store c key value) (insert_command key value.expire_ttl)

  unfoldable pub remove : Cache d.Queue → ℕ → Option CachedValue × Cache d.Queue
  remove c key = let sent = send c (remove_command key) in (sent.map key, take_value sent key)

  unfoldable pub refresh_ttl : Cache d.Queue → ℕ → Option ℕ → Cache d.Queue
  refresh_ttl c key none = c
  refresh_ttl c key (some ttl) = send c (refresh_command key ttl)

  unfoldable pub refresh_value : Cache d.Queue → ℕ → Option CachedValue → Cache d.Queue
  refresh_value c key none = c
  refresh_value c key (some value) = refresh_ttl c key value.expire_ttl

  unfoldable pub refresh : Cache d.Queue → ℕ → Cache d.Queue
  refresh c key = refresh_value c key (c.map key)

  -- `if let Some(token) = key_map.remove(&key)`.
  unfoldable pub drop_token : Cache d.Queue → ℕ → Option ℕ → Option (Cache d.Queue)
  drop_token c key none = some c
  drop_token c key (some token) = d.remove c.queue token >>= λ q.
      some (record c { queue = q; key_map = update c.key_map key none })

  unfoldable pub reset_token : Cache d.Queue → (now ttl : ℕ) → Option ℕ → Option (Cache d.Queue)
  reset_token c now ttl none = some c
  reset_token c now ttl (some token) =
      d.reset c.queue token now ttl >>= λ q. some (record c { queue = q })

  unfoldable pub track : Cache d.Queue → (key now ttl : ℕ) → Option ℕ → Option (Cache d.Queue)
  track c key now ttl none = d.insert c.queue key now ttl >>= λ r.
      some (record c { queue = r.0; key_map = update c.key_map key (some r.1) })
  track c key now ttl (some token) = reset_token c now ttl (some token)

  unfoldable pub handle : Cache d.Queue → (now : ℕ) → DelayCommand → Option (Cache d.Queue)
  handle c now (insert_command key none) = drop_token c key (c.key_map key)
  handle c now (insert_command key (some ttl)) = track c key now ttl (c.key_map key)
  handle c now (remove_command key) = drop_token c key (c.key_map key)
  handle c now (refresh_command key ttl) = reset_token c now ttl (c.key_map key)

  unfoldable pub receive : Cache d.Queue → ℕ → List DelayCommand → Option (Cache d.Queue)
  receive c now [] = some c
  receive c now (command ∷ rest) = handle (record c { commands = rest }) now command

  unfoldable pub deliver : Cache d.Queue → ℕ → Option CachedValue → Cache d.Queue
  deliver c key none = c
  deliver c key (some value) =
      let removed = take_value c key in
      if has_room c.calls then record removed { calls = c.calls ++ value ∷ [] } else removed

  unfoldable pub expire : Cache d.Queue → Option (ℕ × d.Queue) → Cache d.Queue
  expire c none = c
  expire c (some (key, q)) =
      deliver (record c { queue = q; key_map = update c.key_map key none }) key (c.map key)

  -- What follows the loop.
  unfoldable pub stop : Cache d.Queue → Cache d.Queue
  stop c = record c {
    map = λ key. none;
    commands = [];
    queue = d.clear c.queue;
    key_map = λ key. none;
    stopped = true;
  }

  unfoldable pub step : Cache d.Queue → Event → Option (Cache d.Queue)
  step c (stores key value) = some (store c key value)
  step c (sends command) = some (send c command)
  step c (takes key) = some (take_value c key)
  step c (receives now) = if c.stopped then some c else receive c now c.commands
  step c (expires now) = some (if c.stopped then c else expire c (d.next c.queue now))
  step c cancelled = some (if c.stopped then c else stop c)

  unfoldable pub run : Cache d.Queue → List Event → Option (Cache d.Queue)
  run c [] = some c
  run c (event ∷ events) = step c event >>= λ c1. run c1 events

  unfoldable pub serve : Cache d.Queue → Call → Option (Cache d.Queue)
  serve c (insert_call key value) = some (insert c key value)
  serve c (remove_call key) = some (remove c key).1
  serve c (refresh_call key) = some (refresh c key)
  serve c (receive_round now) = step c (receives now)
  serve c (expire_round now) = step c (expires now)

  unfoldable pub serve_all : Cache d.Queue → List Call → Option (Cache d.Queue)
  serve_all c [] = some c
  serve_all c (call ∷ calls) = serve c call >>= λ c1. serve_all c1 calls
