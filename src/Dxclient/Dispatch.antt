-- ===== src/Dxclient/Dispatch.antt =====
-- The loop of readForever over c.handlers (dxclient/client.go) as goroutines: the loop starts one for
-- each handler that is registered, and takes the next message when all of them have returned. The
-- calls that register a handler and wait for it run beside it.
pub mod Once
pub mod Orphan
use godxfeed.Common.{ℕ, ◌+◌, ◌≤◌, ◌≡◌, Bool, true, false, List, [], ◌∷◌, if◌then◌else◌, eqb}

-- Who has registered a handler.
pub data Owner : Type 0 where
  dial authenticate open_channel open_feed streamer : Owner

-- Whether the handler hands its verdict over at `done <- ...`, where done is unbuffered.
unfoldable pub hands_over : Owner → Bool
hands_over dial = true
hands_over authenticate = true
hands_over open_channel = true
hands_over open_feed = false
hands_over streamer = false

-- Whether the call that waits for the verdict also returns on c.done.
unfoldable pub sees_death : Owner → Bool
sees_death dial = false
sees_death authenticate = true
sees_death open_channel = true
sees_death open_feed = true
sees_death streamer = true

-- How often a key is in a list of keys.
abbrev pub times : ℕ → List ℕ → ℕ
times h [] = 0
times h (k ∷ ks) = if eqb k h then times h ks + 1 else times h ks

-- delete(c.handlers, name)
abbrev pub without : ℕ → List ℕ → List ℕ
without k [] = []
without k (h ∷ hs) = if eqb k h then without k hs else h ∷ without k hs

abbrev pub at : {A : Type 0} → ℕ → A → (ℕ → A) → ℕ → A
at k x f i = if eqb k i then x else f i

-- A handler is named by the number of handlers that were registered before it, as its uuid is new.
-- `message` is the number of messages that the loop has taken, and `snapshots` the copy of
-- c.handlers that it made for each. `running` has the handlers of the last message that are still to
-- call wg.Done; `sending` tells which of them stand at `done <- ...`, and `waiting`, which calls
-- stand at `<-done`. `handled` has the message and the handler of each return, newest first.
pub record ReadLoop : Type 0 where
  pub registered : ℕ
  pub owner : ℕ → Owner
  pub handlers : List ℕ
  pub message : ℕ
  pub snapshots : ℕ → List ℕ
  pub running : List ℕ
  pub sending : ℕ → Bool
  pub waiting : ℕ → Bool
  pub handled : List (ℕ × ℕ)
  pub done : Bool
  pub reading : Bool

unfoldable pub new_read_loop : ReadLoop
new_read_loop = record {
  registered = 0;
  owner = λ i. streamer;
  handlers = [];
  message = 0;
  snapshots = λ i. [];
  running = [];
  sending = λ i. false;
  waiting = λ i. false;
  handled = [];
  done = false;
  reading = true;
}

-- addMessageHandler, by a call that then waits for its handler where that hands over a verdict.
abbrev pub add_message_handler : Owner → ReadLoop → ReadLoop
add_message_handler o t = record t {
  registered = t.registered + 1;
  owner = at t.registered o t.owner;
  handlers = t.registered ∷ t.handlers;
  waiting = at t.registered (hands_over o) t.waiting;
}

-- removeMessageHandler
abbrev pub remove_message_handler : ℕ → ReadLoop → ReadLoop
remove_message_handler h t = record t { handlers = without h t.handlers }

-- wg.Done() of the goroutine of a handler
abbrev pub return : ℕ → ReadLoop → ReadLoop
return h t = record t { running = without h t.running; handled = (t.message, h) ∷ t.handled }

-- One step of one goroutine, or of two that meet at a channel.
pub data Step (t : ReadLoop) : ReadLoop → Type 0 where
  register : (o : Owner) → Step t (add_message_handler o t)
  -- `m := <-ingress`: the loop copies c.handlers and starts a goroutine for each
  take :
      t.reading ≡ true
      → t.running ≡ []
      → Step t (record t {
        message = t.message + 1;
        snapshots = at (t.message + 1) t.handlers t.snapshots;
        running = t.handlers;
      })
  -- a handler that has nothing to hand over returns
  finish : (h : ℕ) → 1 ≤ times h t.running → t.sending h ≡ false → Step t (return h t)
  -- a handler has its verdict: it removes itself and comes to `done <- ...`
  decide :
      (h : ℕ)
      → 1 ≤ times h t.running
      → t.sending h ≡ false
      → hands_over (t.owner h) ≡ true
      → Step t (record (remove_message_handler h t) { sending = at h true t.sending })
  -- the verdict is handed over, and both go on
  hand_over :
      (h : ℕ)
      → 1 ≤ times h t.running
      → t.sending h ≡ true
      → t.waiting h ≡ true
      → Step t
          (record (return h t) { sending = at h false t.sending; waiting = at h false t.waiting })
  -- the call takes c.done, and removes its handler
  give_up :
      (h : ℕ)
      → t.waiting h ≡ true
      → sees_death (t.owner h) ≡ true
      → t.done ≡ true
      → Step t (record (remove_message_handler h t) { waiting = at h false t.waiting })
  -- openChannel returns the error of Send
  send_failed :
      (h : ℕ)
      → t.waiting h ≡ true
      → t.owner h ≡ open_channel
      → Step t (record (remove_message_handler h t) { waiting = at h false t.waiting })
  -- OpenFeed has its FEED_CONFIG, an error of Send, or the end of its timer
  feed_set_up : (h : ℕ) → t.owner h ≡ open_feed → Step t (remove_message_handler h t)
  -- the goroutine of C sees c.done
  stop_stream : (h : ℕ) → t.owner h ≡ streamer → t.done ≡ true → Step t (remove_message_handler h t)
  -- writeForever ends
  stop_writing : Step t (record t { done = true })
  -- readForever ends, at its select
  stop_reading :
      t.reading ≡ true → t.running ≡ [] → Step t (record t { reading = false; done = true })

pub data Reach (s : ReadLoop) : ReadLoop → Type 0 where
  here : Reach s s
  next : {t u : ReadLoop} → Reach s t → Step t u → Reach s u
