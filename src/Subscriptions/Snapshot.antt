-- ===== src/Subscriptions/Snapshot.antt =====
-- The snapshot of the subscriptions is in order, whole, and the same for every order in which Go
-- goes through the map.
use mathlib.Core.List.{Permᴰ}
use godxfeed.Common.{ℕ, ◌≡◌, sym, ap, false, List, [], ◌∷◌, map, arith, string_eq, All}
use text.Mathlib.TextEquality.{eq_iff}
use godxfeed.Common.Dict.{Dict, has}
use godxfeed.Common.Dict.Unique.{IsUnique}
use godxfeed.Common.Text.{Unicode}
use godxfeed.Subscriptions.Keys.{
  add_sub-IsUnique, remove_sub-IsUnique, bulk_add-IsUnique, observe-IsUnique, rebind-IsUnique,
}
use godxfeed.Subscriptions.History.{resume, Call, subscribe, unsubscribe, batch, seen, perform, run}
use godxfeed.Common.StringOrder.{str_lt_trans, str_lt_asymm, str_lt_connected}
use godxfeed.Common.Sort.{IsSorted}
use godxfeed.Common.Sort.Laws.{
  IsComparable, sort_slice-Permᴰ, sort_slice-IsSorted, sort_slice-perm, IsStrictWeak, AreComparable,
}
use godxfeed.Subscriptions.{
  SubKey, key_eq, SubState, Manager, FeedController, new_subscription_manager, info_of, info_less,
  snapshot,
}

info_less-IsStrictWeak : IsStrictWeak info_less
unfolding info_less
info_less-IsStrictWeak = record {
  transitive = λ a b c h k. ground (
    arith,
    str_lt_trans a.event b.event c.event,
    str_lt_trans a.symbol b.symbol c.symbol,
    eq_iff a.event b.event,
    eq_iff b.event c.event,
    eq_iff a.event c.event,
    str_lt_asymm a.event b.event,
  );
  asymmetric = λ a b h. ground (
    arith,
    str_lt_asymm a.event b.event,
    str_lt_asymm a.symbol b.symbol,
    eq_iff a.event b.event,
    eq_iff b.event a.event,
  );
  cotransitive = λ a b c h k. ground (
    arith,
    str_lt_connected a.event b.event,
    str_lt_connected b.event c.event,
    str_lt_connected a.symbol b.symbol,
    str_lt_connected b.symbol c.symbol,
    eq_iff a.event b.event,
    eq_iff b.event c.event,
    eq_iff a.event c.event,
    eq_iff a.symbol b.symbol,
    eq_iff b.symbol c.symbol,
    str_lt_trans b.event a.event c.event,
    str_lt_trans a.event c.event b.event,
    str_lt_trans b.symbol a.symbol c.symbol,
    str_lt_asymm a.event c.event,
  );
}

info-IsComparable :
    (k : SubKey) (st : SubState) (m : Dict SubKey SubState)
    → has k m ≡ false
    → All (AreComparable info_less (info_of (k, st))) (map info_of m)
unfolding has info_of info_less
info-IsComparable k st [] h = tt
info-IsComparable k st ((j, w) ∷ m) h = (
  ground (
    arith,
    str_lt_connected k.event j.event,
    str_lt_connected k.symbol j.symbol,
    eq_iff k.event j.event,
    eq_iff j.event k.event,
    eq_iff j.symbol k.symbol,
    eq_iff k.symbol j.symbol,
  ),
  info-IsComparable k st m (ground arith),
)

state-IsComparable :
    (m : Dict SubKey SubState) → IsUnique m → IsComparable info_less (map info_of m)
state-IsComparable [] h = tt
state-IsComparable ((k, st) ∷ m) (new, h) = (info-IsComparable k st m new, state-IsComparable m h)

map-Permᴰ : {xs ys : Dict SubKey SubState} → Permᴰ xs ys → Permᴰ (map info_of xs) (map info_of ys)
map-Permᴰ Permᴰ.nil = Permᴰ.nil
map-Permᴰ (Permᴰ.cons e d) = Permᴰ.cons (ap info_of e) (map-Permᴰ d)
map-Permᴰ (Permᴰ.swap e₁ e₂) = Permᴰ.swap (ap info_of e₁) (ap info_of e₂)
map-Permᴰ (Permᴰ.trans d₁ d₂) = Permᴰ.trans (map-Permᴰ d₁) (map-Permᴰ d₂)

module _ ⦃u : Unicode⦄ (answer : FeedController) where
  perform-IsUnique :
      (c : Call) (m : Manager) → IsUnique m.state → IsUnique (perform answer c m).state
  unfolding perform
  perform-IsUnique (subscribe k) m h = add_sub-IsUnique answer k m h
  perform-IsUnique (unsubscribe k) m h = remove_sub-IsUnique answer k m h
  perform-IsUnique (batch ps) m h = bulk_add-IsUnique answer ps m h
  perform-IsUnique (seen nsec k) m h = observe-IsUnique nsec k m h
  perform-IsUnique (resume fc) m h = rebind-IsUnique answer fc m h

  run-IsUnique :
      (cs : List Call) (m : Manager) → IsUnique m.state → IsUnique (run answer cs m).state
  unfolding run
  run-IsUnique [] m h = h
  run-IsUnique (c ∷ cs) m h = run-IsUnique cs (perform answer c m) (perform-IsUnique c m h)

  -- After any calls on a new manager: for every order in which Go may go through the map, the
  -- snapshot is the same, is in order of event and then symbol, and is a rearrangement of the
  -- entries of the map.
  pub snapshot_canonical :
      (fc : ℕ) (cs : List Call) (m : Manager)
      → Permᴰ (run answer cs (new_subscription_manager fc)).state m.state
      → (snapshot m ≡ snapshot (run answer cs (new_subscription_manager fc)))
        × IsSorted info_less (snapshot m)
        × Permᴰ (snapshot m) (map info_of m.state)
  unfolding snapshot new_subscription_manager
  snapshot_canonical fc cs m d = (
    sym (
        sort_slice-Permᴰ info_less info_less-IsStrictWeak (map-Permᴰ d)
          (state-IsComparable _ (run-IsUnique cs (new_subscription_manager fc) tt))),
    sort_slice-IsSorted info_less-IsStrictWeak (map info_of m.state),
    sort_slice-perm info_less (map info_of m.state),
  )
