-- ===== src/Dxclient/Transport.antt =====
-- Send, writeForever and the end of readForever (dxclient/client.go) as goroutines of one client:
-- any number of calls of Send, the write loop, and the channels between them, which are unbuffered.
pub mod Written
pub mod Stuck
use godxfeed.Common.{ℕ, ◌≡◌, Bool, true, false, List, [], ◌∷◌, if◌then◌else◌, eqb}

-- Where the n-th call of Send stands.
pub data Sender : Type 0 where
  -- not called, or still in m.JSON()
  outside : Sender
  -- at `c.egress <- p`
  offering : Sender
  -- at `<-done`
  awaiting : Sender
  -- returned with an error before the write loop took its payload
  withdrawn : Sender
  -- with nil, or with ErrClient
  succeeded failed : Sender

-- Where writeForever stands.
pub data Writer : Type 0 where
  -- in its select
  idle : Writer
  -- at c.conn.WriteMessage, with the payload of a call
  writing : ℕ → Writer
  -- at `payload.done <- struct{}{}`
  acking : ℕ → Writer
  stopped : Writer

-- `done` tells whether c.done is closed; `reading`, whether readForever runs; `written` has the
-- calls whose payload is on the connection, newest first.
pub record Transport : Type 0 where
  pub done : Bool
  pub reading : Bool
  pub writer : Writer
  pub senders : ℕ → Sender
  pub written : List ℕ

abbrev pub with_sender : ℕ → Sender → (ℕ → Sender) → ℕ → Sender
with_sender n p senders i = if eqb n i then p else senders i

unfoldable pub new_transport : Transport
new_transport = record {
  done = false;
  reading = true;
  writer = idle;
  senders = λ n. outside;
  written = [];
}

-- One step of one goroutine, or of two that meet at a channel.
pub data Step (t : Transport) : Transport → Type 0 where
  call :
      (n : ℕ)
      → t.senders n ≡ outside
      → Step t (record t { senders = with_sender n offering t.senders })
  -- m.JSON() returns an error
  refuse :
      (n : ℕ)
      → t.senders n ≡ outside
      → Step t (record t { senders = with_sender n withdrawn t.senders })
  hand_over :
      (n : ℕ)
      → t.senders n ≡ offering
      → t.writer ≡ idle
      → Step t (record t { writer = writing n; senders = with_sender n awaiting t.senders })
  -- the first select of Send takes c.done
  give_up_offer :
      (n : ℕ)
      → t.senders n ≡ offering
      → t.done ≡ true
      → Step t (record t { senders = with_sender n withdrawn t.senders })
  write :
      (n : ℕ)
      → t.writer ≡ writing n
      → Step t (record t { writer = acking n; written = n ∷ t.written })
  -- WriteMessage returns an error: the deferred closeOnce runs
  write_error : (n : ℕ) → t.writer ≡ writing n → Step t (record t { writer = stopped; done = true })
  acknowledge :
      (n : ℕ)
      → t.writer ≡ acking n
      → t.senders n ≡ awaiting
      → Step t (record t { writer = idle; senders = with_sender n succeeded t.senders })
  -- the second select of Send takes c.done
  give_up_wait :
      (n : ℕ)
      → t.senders n ≡ awaiting
      → t.done ≡ true
      → Step t (record t { senders = with_sender n failed t.senders })
  -- the context is cancelled, and the write loop sees it
  cancel : t.writer ≡ idle → Step t (record t { writer = stopped; done = true })
  -- readForever returns: its context is cancelled, or reading has failed
  stop_reading : t.reading ≡ true → Step t (record t { reading = false; done = true })

pub data Reach (s : Transport) : Transport → Type 0 where
  here : Reach s s
  next : {t u : Transport} → Reach s t → Step t u → Reach s u

-- c.Wait() returns once both loops have ended.
abbrev pub Waited : Transport → Type 0
Waited t = (t.writer ≡ stopped) × (t.reading ≡ false)
