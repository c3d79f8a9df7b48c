-- ===== src/CheckRule/Engine.antt =====
-- checkEngine of cmd/gt-pipeline/check_hook.go: the rules of a project over the events of a session, in
-- the order in which the main loop sees them. Times are nanoseconds of one monotonic clock; the random
-- alert id and the texts of an alert are left out.
use gametrace.Prelude.{
  ℕ, suc, String, Bool, true, false, not, ◌||◌, List, [], ◌∷◌, ◌++◌, Option, none, some, length,
  drop, ltb, ◌==◌, ◌-◌, ◌+◌, if◌then◌else◌, test, is_nil,
}
use gametrace.Prelude.Map.{Map, lookup, insert}
use gametrace.Prelude.Text.{text_dec}
use gametrace.Rule.Json.{Gjson}
use gametrace.CheckRule.{ℤ, pos, negsuc, CheckRule, cooldown, context, match_event}

-- normalizeDir, on the direction that strings.TrimSpace and strings.ToLower leave.
abbrev pub is_one_of : String → List String → Bool
is_one_of s [] = false
is_one_of s (t ∷ ts) = test (text_dec s t) || is_one_of s ts

unfoldable pub normalize_dir : String → String
normalize_dir d =
    if is_one_of d ("client_to_server" ∷ "c2s" ∷ "request" ∷ "outgoing" ∷ "up" ∷ [])
    then "request"
    else if is_one_of d ("server_to_client" ∷ "s2c" ∷ "response" ∷ "incoming" ∷ "down" ∷ [])
    then "response"
    else "unknown"

abbrev pub queue_size : ℕ
queue_size = 64

-- now.Sub(last) < cooldown
abbrev pub within : ℕ → ℕ → ℤ → Bool
within now last (pos c) = ltb now (last + c)
within now last (negsuc c) = ltb (now + suc c) last

-- The last n elements.
abbrev pub last_n {ℓ} : {A : Type ℓ} → ℕ → List A → List A
last_n n xs = drop (length xs - n) xs

module _ (g : Gjson) where
  open g use {Float}

  -- An event: its view for the rules, `none` where it cannot be marshalled, and its direction.
  pub record Event : Type 0 where
    pub id : String
    pub view : Option g.Result
    pub direction : String

  -- notifyJob
  pub record Job : Type 0 where
    pub rule : CheckRule Float
    pub trigger : Event
    pub window : Map String (List Event)

  pub record Engine : Type 0 where
    pub rules : List (CheckRule Float)
    pub max_context : ℕ
    pub window : Map String (List Event)
    pub queue : List Job
    pub stopped : Bool
    pub last_fired : Map String ℕ
    pub dropped : ℕ

  unfoldable pub widest : List (CheckRule Float) → ℕ
  widest [] = 0
  widest (r ∷ rs) = let rest = widest rs in if ltb rest (context g r) then context g r else rest

  -- newCheckEngine
  unfoldable pub new_engine : List (CheckRule Float) → Engine
  new_engine rules = record {
    rules = rules;
    max_context = widest rules;
    window = [];
    queue = [];
    stopped = false;
    last_fired = [];
    dropped = 0;
  }

  unfoldable pub snapshot : ℕ → Map String (List Event) → Map String (List Event)
  snapshot n [] = []
  snapshot n ((dir, evs) ∷ w) =
      let rest = snapshot n w in if is_nil evs then rest else (dir, last_n n evs) ∷ rest

  -- snapshotContext; a nil map is an empty one.
  unfoldable pub snapshot_context : ℕ → Engine → Map String (List Event)
  snapshot_context n e = if n == 0 then [] else snapshot n e.window

  abbrev pub events_of : Map String (List Event) → String → List Event
  events_of w dir = elim (lookup text_dec dir w) [ none ↦ [] | some evs ↦ evs ]

  unfoldable pub push_window : String → Event → Engine → Engine
  push_window dir ev e = if e.max_context == 0 then e else record e {
    window =
        insert text_dec dir (last_n e.max_context (events_of e.window dir ++ ev ∷ [])) e.window;
  }

  -- A send on the channel that does not wait.
  unfoldable pub offer : Job → Engine → Engine
  offer job e =
      if ltb (length e.queue) queue_size
      then record e { queue = e.queue ++ job ∷ [] }
      else record e { dropped = suc e.dropped }

  -- The gate before a notification: the rule fired a moment ago.
  unfoldable pub is_cooling : CheckRule Float → ℕ → Engine → Bool
  is_cooling r now e = elim (lookup text_dec r.id e.last_fired) [
    | none ↦ false
    | some last ↦ within now last (cooldown g r)
  ]

  unfoldable pub fire : CheckRule Float → Event → ℕ → Engine → Engine
  fire r ev now e =
      offer (record { rule = r; trigger = ev; window = snapshot_context (context g r) e })
        (record e { last_fired = insert text_dec r.id now e.last_fired })

  -- One rule of the loop of inspect.
  unfoldable pub judge : CheckRule Float → Event → ℕ → Engine → Engine
  judge r ev now e =
      if not (match_event g r.condition ev.view)
      then e
      else if is_cooling r now e
      then e
      else fire r ev now e

  unfoldable pub judge_all : List (CheckRule Float) → Event → ℕ → Engine → Engine
  judge_all [] ev now e = e
  judge_all (r ∷ rs) ev now e = judge_all rs ev now (judge r ev now e)

  abbrev pub has_view : Event → Bool
  has_view ev = elim ev.view [ none ↦ false | some doc ↦ true ]

  unfoldable pub inspect : Event → ℕ → Engine → Engine
  inspect ev now e =
      if is_nil e.rules || e.stopped || not (has_view ev)
      then e
      else push_window (normalize_dir ev.direction) ev (judge_all e.rules ev now e)

  -- The worker receives a job.
  unfoldable pub take_job : Engine → Option (Job × Engine)
  take_job e = elim e.queue [ [] ↦ none | job ∷ jobs ↦ some (job, record e { queue = jobs }) ]

  -- stop, its first part: later events are ignored.
  unfoldable pub stop : Engine → Engine
  stop e = record e { stopped = true }
