-- ===== src/Telemetry/Alarms/Live.antt =====
-- One live alarm for each rule and asset: what keeps it, and what breaks it.
use digital_twin.Prelude.{
  ℕ, ◌+◌, ◌≤◌, true, false, none, some, List, [], ◌∷◌, ◌++◌, ◌==◌, ◌&&◌, ◌≡◌, ◌≢◌, refl, ap, ◌∙◌,
  arith, Bool-cases, Option-cases, inl, inr, if◌then◌else◌,
}
use digital_twin.Prelude.Result.{ok}
use digital_twin.Ingest.AlarmEngine.{AlarmData}
use digital_twin.Telemetry.Alarms.{
  Alarm, Db, shelved, Action, unshelve, ActionCreate, is_live, is_for, find, save,
  active_for_rule_and_asset, new_alarm, raise_alarm, change, get_or_404, perform_action,
}

module _ {F : Type 0} where
  -- how many alarms of the rule and the asset are active or acknowledged
  unfoldable pub live_count : ℕ → ℕ → List (Alarm F) → ℕ
  live_count r s [] = 0
  live_count r s (a ∷ l) = (if is_for r s a && is_live a.status then 1 else 0) + live_count r s l

  abbrev pub HasOneLive : Db F → Type 0
  HasOneLive db = (r s : ℕ) → live_count r s db.alarms ≤ 1

  live_count-none :
      (r s : ℕ) (l : List (Alarm F)) → active_for_rule_and_asset r s l ≡ none → live_count r s l ≡ 0
  unfolding live_count active_for_rule_and_asset
  live_count-none r s [] h = refl
  live_count-none r s (a ∷ l) h = ground (arith, live_count-none r s l)

  live_count-append :
      (r s : ℕ) (l : List (Alarm F)) (a : Alarm F)
      → live_count r s (l ++ a ∷ [])
        ≡ live_count r s l + (if is_for r s a && is_live a.status then 1 else 0)
  unfolding live_count
  live_count-append r s [] a = ground arith
  live_count-append r s (x ∷ l) a = ground (arith, live_count-append r s l a)

  -- Raising an alarm keeps at most one live alarm for each rule and asset; and if it publishes none,
  -- it changes nothing.
  pub raise_alarm-HasOneLive :
      (d : AlarmData F) (db : Db F)
      → HasOneLive db
      → HasOneLive (raise_alarm d db).1 × ((raise_alarm d db).0 ≡ none → (raise_alarm d db).1 ≡ db)
  unfolding raise_alarm new_alarm
  raise_alarm-HasOneLive d db h =
      let new = new_alarm db.next_id d in
      elim (Option-cases (active_for_rule_and_asset d.rule_id d.asset_id db.alarms)) [
        | inl e ↦
            rw (e, raise_alarm)
              (
                λ r s. ground (
                  arith,
                  live_count-append r s db.alarms new,
                  live_count-none d.rule_id d.asset_id db.alarms,
                  h r s,
                ),
                λ q. cc,
              )
        | inr found ↦ rw (found.1, raise_alarm) (h, λ q. refl)
      ]

  abbrev weight : ℕ → ℕ → Alarm F → ℕ
  weight r s a = if is_for r s a && is_live a.status then 1 else 0

  find_here :
      (i : ℕ) (x b : Alarm F) (l : List (Alarm F))
      → (x.id == i) ≡ true
      → find i (x ∷ l) ≡ some b
      → x ≡ b
  unfolding find
  find_here i x b l t h = cc (rw (t, find) at h)

  find_later :
      (i : ℕ) (x b : Alarm F) (l : List (Alarm F))
      → (x.id == i) ≡ false
      → find i (x ∷ l) ≡ some b
      → find i l ≡ some b
  unfolding find
  find_later i x b l f h = rw (f, find) at h

  live_count-save :
      (r s : ℕ) (a b : Alarm F) (l : List (Alarm F))
      → find a.id l ≡ some b
      → live_count r s (save a l) + weight r s b ≡ live_count r s l + weight r s a
  unfolding live_count find save
  live_count-save r s a b [] h = cc
  live_count-save r s a b (x ∷ l) h = elim (Bool-cases (x.id == a.id)) [
    | inl t ↦ rw t (omega (arith, ap (weight r s) (find_here a.id x b l t h)))
    | inr f ↦ rw f (omega (arith, live_count-save r s a b l (find_later a.id x b l f h)))
  ]

  find-id : (i : ℕ) (b : Alarm F) (l : List (Alarm F)) → find i l ≡ some b → b.id ≡ i
  unfolding find
  find-id i b [] h = cc
  find-id i b (x ∷ l) h = ground (arith, find-id i b l)

  -- What a successful action does to the table and to the alarm.
  action_lem :
      (i : ℕ) (create : ActionCreate) (now : ℕ) (db db' : Db F) (a' : Alarm F)
      → perform_action i create now db ≡ ok (a', db')
      → (a : Alarm F) × (find i db.alarms ≡ some a)
        × (change create create.action now a ≡ ok a')
        × (db'.alarms ≡ save a' db.alarms)
  unfolding perform_action get_or_404
  action_lem i create now db db' a' h = elim (Option-cases (find i db.alarms)) [
    | inl e ↦ absurd (ground arith)
    | inr f ↦ (f.0, f.1, ground (arith, f.1), ground (arith, f.1))
  ]

  change-detail :
      (create : ActionCreate) (act : Action) (now : ℕ) (a a' : Alarm F)
      → change create act now a ≡ ok a'
      → (a'.id ≡ a.id) × (a'.detail ≡ a.detail)
  unfolding change
  change-detail create act now a a' h = ground arith

  change-live :
      (create : ActionCreate) (act : Action) (now : ℕ) (a a' : Alarm F)
      → act ≢ unshelve
      → change create act now a ≡ ok a'
      → is_live a'.status ≡ true
      → is_live a.status ≡ true
  unfolding change
  change-live create act now a a' n h q = ground arith

  -- No action but `unshelve` makes an alarm live, so it keeps at most one live alarm for each rule
  -- and asset.
  pub perform_action-HasOneLive :
      (i : ℕ) (create : ActionCreate) (now : ℕ) (db db' : Db F) (a' : Alarm F)
      → create.action ≢ unshelve
      → perform_action i create now db ≡ ok (a', db')
      → HasOneLive db
      → HasOneLive db'
  perform_action-HasOneLive i create now db db' a' n h one r s =
      let (a, found, changed, saved) = action_lem i create now db db' a' h in
      let (same_id, same) = change-detail create create.action now a a' changed in
      let found' : find a'.id db.alarms ≡ some a =
        ap (λ k. find k db.alarms) (same_id ∙ find-id i a db.alarms found) ∙ found in
      ground (
        arith,
        live_count-save r s a' a db.alarms found',
        ap (live_count r s) saved,
        one r s,
        change-live create create.action now a a' n changed,
      )

  unshelve-live :
      (create : ActionCreate) (act : Action) (now : ℕ) (a a' : Alarm F)
      → act ≡ unshelve
      → change create act now a ≡ ok a'
      → is_live a'.status ≡ true
  unfolding change
  unshelve-live create act now a a' u h = ground arith

  live_count-some :
      (r s : ℕ) (l : List (Alarm F)) (o : Alarm F)
      → active_for_rule_and_asset r s l ≡ some o
      → 1 ≤ live_count r s l
  unfolding live_count active_for_rule_and_asset
  live_count-some r s [] o h = cc
  live_count-some r s (a ∷ l) o h = ground (arith, live_count-some r s l o)

  weight-live :
      (r s : ℕ) (a : Alarm F)
      → a.detail.rule_id ≡ r
      → a.detail.asset_id ≡ s
      → is_live a.status ≡ true
      → weight r s a ≡ 1
  weight-live r s a e f g = ground arith

  weight-shelved : (r s : ℕ) (a : Alarm F) → a.status ≡ shelved → weight r s a ≡ 0
  weight-shelved r s a e = ground arith

  -- Unshelving an alarm makes it live whatever else is: if another alarm of its rule and asset was
  -- raised while it was shelved and is live, then two of them are live afterwards.
  pub unshelve_breaks_one_live :
      (i : ℕ) (create : ActionCreate) (now : ℕ) (db db' : Db F) (a other a' : Alarm F)
      → create.action ≡ unshelve
      → find i db.alarms ≡ some a
      → a.status ≡ shelved
      → active_for_rule_and_asset a.detail.rule_id a.detail.asset_id db.alarms ≡ some other
      → perform_action i create now db ≡ ok (a', db')
      → ¬ HasOneLive db'
  unshelve_breaks_one_live i create now db db' a other a' u found sh live h one =
      let r = a.detail.rule_id in
      let s = a.detail.asset_id in
      let (b, found', changed, saved) = action_lem i create now db db' a' h in
      let same : b ≡ a = cc in
      let (same_id, detail) = change-detail create create.action now b a' changed in
      let key : find a'.id db.alarms ≡ some b =
        ap (λ k. find k db.alarms) (same_id ∙ find-id i b db.alarms found') ∙ found' in
      ground (
        arith,
        live_count-save r s a' b db.alarms key,
        ap (live_count r s) saved,
        one r s,
        live_count-some r s db.alarms other live,
        unshelve-live create create.action now b a' u changed,
        weight-live r s a',
        weight-shelved r s b,
      )
