-- ===== src/Subscriptions/History.antt =====
-- Any sequence of calls of one manager, one after the other.
use godxfeed.Common.{
  none, ◌∙◌, ℕ, ◌≡◌, refl, true, false, not, is_some, is_empty, All, List, [], ◌∷◌, arith,
  if◌then◌else◌, Bool-cases, inl, inr,
}
use godxfeed.Common.Dict.{Dict, has}
use godxfeed.Common.Dict.Unique.{IsUnique}
use godxfeed.Subscriptions.Keys.{
  add_sub-IsUnique, remove_sub-IsUnique, bulk_add-IsUnique, observe-IsUnique, rebind-IsUnique,
}
use godxfeed.Common.Text.{Unicode}
use godxfeed.Subscriptions.{
  FeedSub, SubKey, key_eq, SubState, Frame, Manager, FeedController, key_of, sub_of, unregistered,
  update_subscription, keys, rebind, remove_sub, bulk_add, add_sub, observe,
  new_subscription_manager,
}
use godxfeed.Subscriptions.Wire.{
  mentions, mentions-keys, rebind-IsInLockstep, on_wire, IsInLockstep, mentions-unregistered,
  remove_sub-IsInLockstep, add_sub-IsInLockstep, bulk_add-IsInLockstep, observe-IsInLockstep,
}

-- A call of the manager by an HTTP handler, by the ingress loop, or by a reconnect: `resume` is Rebind.
pub data Call : Type 0 where
  subscribe unsubscribe : SubKey → Call
  batch : List FeedSub → Call
  seen : ℕ → SubKey → Call
  resume : ℕ → Call

-- No key stands twice in a batch.
abbrev pub IsDistinct : List FeedSub → Type 0
IsDistinct [] = Unit
IsDistinct (p ∷ ps) = (mentions (key_of p) ps ≡ false) × IsDistinct ps

abbrev pub HasDistinctBatch : Call → Type 0
HasDistinctBatch (batch ps) = IsDistinct ps
HasDistinctBatch _ = Unit

-- A call that the server would reject is never made: nothing is added that is there, or twice, and
-- nothing is removed that is not there.
abbrev pub IsClean : List Frame → Type 0
IsClean [] = Unit
IsClean (f ∷ fs) =
    (IsDistinct f.add
      × ((k : SubKey) → mentions k f.add ≡ true → on_wire fs f.client k ≡ false)
      × ((k : SubKey) → mentions k f.remove ≡ true → on_wire fs f.client k ≡ true))
    × IsClean fs

IsDistinct-unregistered :
    (m : Dict SubKey SubState) (ps : List FeedSub) → IsDistinct ps → IsDistinct (unregistered m ps)
unfolding unregistered
IsDistinct-unregistered m [] d = tt
IsDistinct-unregistered m (p ∷ ps) (new, d) =
    ground (arith, mentions-unregistered m ps (key_of p), IsDistinct-unregistered m ps d)

IsDistinct-keys : (m : Dict SubKey SubState) → IsUnique m → IsDistinct (keys m)
unfolding has
IsDistinct-keys [] u = tt
IsDistinct-keys ((k, st) ∷ m) (new, u) = (mentions-keys m k ∙ new, IsDistinct-keys m u)

module _ ⦃u : Unicode⦄ (answer : FeedController) where
  unfoldable pub perform : Call → Manager → Manager
  perform (subscribe k) m = (add_sub answer k m).0
  perform (unsubscribe k) m = (remove_sub answer k m).0
  perform (batch ps) m = (bulk_add answer ps m).0
  perform (seen nsec k) m = observe nsec k m
  perform (resume fc) m = (rebind answer fc m).0

  unfoldable pub run : List Call → Manager → Manager
  run [] m = m
  run (c ∷ cs) m = run cs (perform c m)

  -- A Rebind succeeds, on a connection that has no subscription.
  abbrev pub Resumes : ℕ → Manager → Type 0
  Resumes fc m = ((k : SubKey) → on_wire m.sent fc k ≡ false) × ((rebind answer fc m).1 ≡ none)

  -- Every Rebind of the calls does so.
  unfoldable pub AllResume : List Call → Manager → Type 0
  AllResume [] m = Unit
  AllResume (resume fc ∷ cs) m = Resumes fc m × AllResume cs (perform (resume fc) m)
  AllResume (c ∷ cs) m = AllResume cs (perform c m)

  -- `start`, or that the last Rebind of the calls does so, if there is one.
  unfoldable pub LastResumes : List Call → Manager → Type 0 → Type 0
  LastResumes [] m start = start
  LastResumes (resume fc ∷ cs) m start = LastResumes cs (perform (resume fc) m) (Resumes fc m)
  LastResumes (c ∷ cs) m start = LastResumes cs (perform c m) start

  run-IsInLockstep_from :
      (cs : List Call) {m : Manager} (start : Type 0)
      → (start → IsInLockstep m)
      → LastResumes cs m start
      → IsInLockstep (run cs m)
  unfolding run perform LastResumes
  run-IsInLockstep_from [] start h l = h l
  run-IsInLockstep_from (subscribe k ∷ cs) start h l =
      run-IsInLockstep_from cs start (λ x. add_sub-IsInLockstep answer k (h x)) l
  run-IsInLockstep_from (unsubscribe k ∷ cs) start h l =
      run-IsInLockstep_from cs start (λ x. remove_sub-IsInLockstep answer k (h x)) l
  run-IsInLockstep_from (batch ps ∷ cs) start h l =
      run-IsInLockstep_from cs start (λ x. bulk_add-IsInLockstep answer ps (h x)) l
  run-IsInLockstep_from (seen nsec k ∷ cs) start h l =
      run-IsInLockstep_from cs start (λ x. observe-IsInLockstep nsec k (h x)) l
  run-IsInLockstep_from (resume fc ∷ cs) {m} start h l =
      run-IsInLockstep_from cs (Resumes fc m)
        (λ (new, done). rebind-IsInLockstep answer fc m new done) l

  -- The frame that a call of the manager hands to its controller.
  abbrev frame : Manager → List FeedSub → List FeedSub → Frame
  frame m add remove = record {
    client = m.fc;
    add = add;
    remove = remove;
    accepted = not (is_some (answer m.sent m.fc add remove));
  }

  sent-add_sub :
      (k : SubKey) (m : Manager)
      → (add_sub answer k m).0.sent
        ≡ (if has k m.state then m.sent else frame m (sub_of k ∷ []) [] ∷ m.sent)
  unfolding add_sub update_subscription
  sent-add_sub k m = ground arith

  sent-remove_sub :
      (k : SubKey) (m : Manager)
      → (remove_sub answer k m).0.sent
        ≡ (if has k m.state then frame m [] (sub_of k ∷ []) ∷ m.sent else m.sent)
  unfolding remove_sub update_subscription
  sent-remove_sub k m = ground arith

  sent-bulk_add :
      (ps : List FeedSub) (m : Manager)
      → (bulk_add answer ps m).0.sent ≡ (
          if is_empty (unregistered m.state ps)
          then m.sent
          else frame m (unregistered m.state ps) [] ∷ m.sent)
  unfolding bulk_add update_subscription
  sent-bulk_add [] m = unfold unregistered in refl
  sent-bulk_add (p ∷ ps) m = ground arith

  sent-observe : (nsec : ℕ) (k : SubKey) (m : Manager) → (observe nsec k m).sent ≡ m.sent
  unfolding observe
  sent-observe nsec k m = ground arith

  sent-rebind :
      (fc : ℕ) (m : Manager)
      → (rebind answer fc m).0.sent ≡ (
          if is_empty (keys m.state)
          then m.sent
          else frame (record m { fc = fc }) (keys m.state) [] ∷ m.sent)
  unfolding rebind update_subscription
  sent-rebind fc m = ground arith

  module _ {m : Manager} (h : IsInLockstep m) (c : IsClean m.sent) where
    add_sub-IsClean : (k : SubKey) → IsClean (add_sub answer k m).0.sent
    add_sub-IsClean k = rw sent-add_sub (elim (Bool-cases (has k m.state)) [
      | inl there ↦ rw there c
      | inr new ↦
          rw new (((refl, tt), λ j e. ground (arith, h.at_key k, key_eq.beq_iff k j), λ j e. cc), c)
    ])

    remove_sub-IsClean : (k : SubKey) → IsClean (remove_sub answer k m).0.sent
    remove_sub-IsClean k = rw sent-remove_sub (elim (Bool-cases (has k m.state)) [
      | inl there ↦
          rw there ((tt, λ j e. cc, λ j e. ground (arith, h.at_key k, key_eq.beq_iff k j)), c)
      | inr new ↦ rw new c
    ])

    bulk_add-IsClean : (ps : List FeedSub) → IsDistinct ps → IsClean (bulk_add answer ps m).0.sent
    bulk_add-IsClean ps d =
        rw sent-bulk_add (elim (Bool-cases (is_empty (unregistered m.state ps))) [
          | inl none_new ↦ rw none_new c
          | inr some_new ↦ rw some_new (
            (
              IsDistinct-unregistered m.state ps d,
              λ j e. ground (arith, h.at_key j, mentions-unregistered m.state ps j),
              λ j e. cc,
            ),
            c,
          )
        ])

  rebind-IsClean :
      (fc : ℕ) (m : Manager)
      → IsUnique m.state
      → IsClean m.sent
      → ((k : SubKey) → on_wire m.sent fc k ≡ false)
      → IsClean (rebind answer fc m).0.sent
  rebind-IsClean fc m u c new = rw sent-rebind (elim (Bool-cases (is_empty (keys m.state))) [
    | inl bare ↦ rw bare c
    | inr full ↦ rw full ((IsDistinct-keys m.state u, λ j e. new j, λ j e. cc), c)
  ])

  run-IsClean_from :
      (cs : List Call) {m : Manager}
      → All HasDistinctBatch cs
      → AllResume cs m
      → IsUnique m.state
      → IsInLockstep m
      → IsClean m.sent
      → IsClean (run cs m).sent
  unfolding run perform AllResume
  run-IsClean_from [] d l u h c = c
  run-IsClean_from (subscribe k ∷ cs) {m} (d, ds) l u h c =
      run-IsClean_from cs ds l (add_sub-IsUnique answer k m u) (add_sub-IsInLockstep answer k h)
        (add_sub-IsClean h c k)
  run-IsClean_from (unsubscribe k ∷ cs) {m} (d, ds) l u h c =
      run-IsClean_from cs ds l (remove_sub-IsUnique answer k m u)
        (remove_sub-IsInLockstep answer k h) (remove_sub-IsClean h c k)
  run-IsClean_from (batch ps ∷ cs) {m} (d, ds) l u h c =
      run-IsClean_from cs ds l (bulk_add-IsUnique answer ps m u) (bulk_add-IsInLockstep answer ps h)
        (bulk_add-IsClean h c ps d)
  run-IsClean_from (seen nsec k ∷ cs) {m} (d, ds) l u h c =
      run-IsClean_from cs ds l (observe-IsUnique nsec k m u) (observe-IsInLockstep nsec k h)
        (rw sent-observe c)
  run-IsClean_from (resume fc ∷ cs) {m} (d, ds) ((new, done), l) u h c =
      run-IsClean_from cs ds l (rebind-IsUnique answer fc m u)
        (rebind-IsInLockstep answer fc m new done) (rebind-IsClean fc m u c new)

  -- After any sequence of calls on a new manager, Rebind included, whatever the controller answers:
  -- if the last Rebind, where there is one, succeeded on a connection without subscriptions, the
  -- manager's map has a key exactly if the server at the other end is subscribed to it.
  pub run-IsInLockstep :
      (fc : ℕ) (cs : List Call)
      → LastResumes cs (new_subscription_manager fc) Unit
      → IsInLockstep (run cs (new_subscription_manager fc))
  unfolding new_subscription_manager
  run-IsInLockstep fc cs l =
      run-IsInLockstep_from cs Unit (λ x. record { at_key = λ k. unfold has in refl }) l

  -- If no batch names a key twice, and every Rebind succeeds on a connection without subscriptions,
  -- no call of the controller that a new manager makes adds a key that the server already has, adds
  -- one twice, or removes one that the server does not have.
  pub run-IsClean :
      (fc : ℕ) (cs : List Call)
      → All HasDistinctBatch cs
      → AllResume cs (new_subscription_manager fc)
      → IsClean (run cs (new_subscription_manager fc)).sent
  unfolding new_subscription_manager
  run-IsClean fc cs d l =
      run-IsClean_from cs d l tt (record { at_key = λ k. unfold has in refl }) tt
