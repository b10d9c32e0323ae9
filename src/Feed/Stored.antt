-- ===== src/Feed/Stored.antt =====
-- What building and sending the weekly signals leaves of them in the table.
use automated_stock_trading.Common.{
  ◌≡◌, ◌≢◌, ◌⊎◌, ◌∙◌, refl, sym, true, false, some, List, [], ◌∷◌, arith, Bool-cases, inl, inr, All,
}
use automated_stock_trading.Modeling.Targets.{Checked}
use automated_stock_trading.Feed.Rows.{sent, Channel, WeeklySignal}
use automated_stock_trading.Feed.Signals.{is_same_call, update_or_create, save_sent, deliver}
use automated_stock_trading.Feed.Sending.{
  Sending, is_due, delivered_to, deliver_signal, send_one, send_all,
}

abbrev pub AnyOf {ℓ} : {A : Type ℓ} → (A → Type 0) → List A → Type 0
AnyOf P [] = ⊥
AnyOf P (x ∷ xs) = P x ⊎ AnyOf P xs

-- What holds of a value that is returned.
abbrev pub Returned {ℓ} : {A : Type 0} → (A → Type ℓ) → Checked A → Type ℓ
Returned P (Checked.ok a) = P a
Returned P (Checked.error e) = Unit

pub Checked-either :
    {A : Type 0} (m : Checked A)
    → ((a : A) × (m ≡ Checked.ok a)) ⊎ ((e : _) × (m ≡ Checked.error e))
Checked-either (Checked.ok a) = inl (a, refl)
Checked-either (Checked.error e) = inr (e, refl)

module _ {F : Type 0} where
  -- The row of a signal.
  abbrev pub IsRowFor : (s r : WeeklySignal F) → Type 0
  IsRowFor s r =
      (r.instrument ≡ s.instrument)
      × (r.trading_model ≡ s.trading_model)
      × (r.target_date ≡ s.target_date)

  abbrev pub HasRow : WeeklySignal F → List (WeeklySignal F) → Type 0
  HasRow s rows = AnyOf (IsRowFor s) rows

  -- The row of a signal is in the table, as sent now to some channel.
  abbrev pub IsStored : Sending F → WeeklySignal F → List (WeeklySignal F) → Type 0
  IsStored c s rows =
      AnyOf (λ r. IsRowFor s r × (r.status ≡ sent) × (r.sent_at ≡ some c.now) × (r.channels ≢ []))
        rows

  call_row : (s r : WeeklySignal F) → is_same_call s r ≡ true → IsRowFor s r
  call_row s r e = (ground (arith, e), ground (arith, e), ground (arith, e))

  row_call : (s r : WeeklySignal F) → IsRowFor s r → is_same_call s r ≡ true
  row_call s r (a, b, c) = ground (arith, a, b, c)

  not_row : (s r : WeeklySignal F) → IsRowFor s r → is_same_call s r ≡ false → ⊥
  not_row s r h e = cc (row_call s r h, e)

  rows_of_one : (t s r : WeeklySignal F) → IsRowFor t r → IsRowFor s r → IsRowFor t s
  rows_of_one t s r (a, b, c) (x, y, z) = (sym x ∙ a, sym y ∙ b, sym z ∙ c)

  pub update_or_create-HasRow :
      (s : WeeklySignal F) (rows : List (WeeklySignal F))
      → HasRow (update_or_create s rows).0 (update_or_create s rows).1
  unfolding update_or_create
  update_or_create-HasRow s [] = inl (refl, refl, refl)
  update_or_create-HasRow s (r ∷ rs) = elim (Bool-cases (is_same_call s r)) [
    | inl e ↦ rw (e, update_or_create) (inl (refl, refl, refl))
    | inr e ↦ rw (e, update_or_create) (inr (update_or_create-HasRow s rs))
  ]

  pub update_or_create_keeps :
      (t s : WeeklySignal F) (rows : List (WeeklySignal F))
      → HasRow t rows
      → HasRow t (update_or_create s rows).1
  unfolding update_or_create
  update_or_create_keeps t s [] h = absurd h
  update_or_create_keeps t s (r ∷ rs) h = elim (Bool-cases (is_same_call s r)) [
    | inl e ↦
        rw (e, update_or_create)
          (elim h [ inl k ↦ inl (rows_of_one t s r k (call_row s r e)) | inr k ↦ inr k ])
    | inr e ↦
        rw (e, update_or_create)
          (elim h [ inl k ↦ inl k | inr k ↦ inr (update_or_create_keeps t s rs k) ])
  ]

  save_sent_keeps-HasRow :
      (t s : WeeklySignal F) (rows : List (WeeklySignal F))
      → HasRow t rows
      → HasRow t (save_sent s rows)
  unfolding save_sent
  save_sent_keeps-HasRow t s [] h = absurd h
  save_sent_keeps-HasRow t s (r ∷ rs) h = elim (Bool-cases (is_same_call s r)) [
    | inl e ↦ rw (e, save_sent) (elim h [ inl k ↦ inl k | inr k ↦ inr k ])
    | inr e ↦
        rw (e, save_sent) (elim h [ inl k ↦ inl k | inr k ↦ inr (save_sent_keeps-HasRow t s rs k) ])
  ]

  module _ (c : Sending F) (s : WeeklySignal F)
      (now : (s.status ≡ sent) × (s.sent_at ≡ some c.now) × (s.channels ≢ [])) where
    save_sent_keeps-IsStored :
        (t : WeeklySignal F) (rows : List (WeeklySignal F))
        → IsStored c t rows
        → IsStored c t (save_sent s rows)
    unfolding save_sent
    save_sent_keeps-IsStored t [] h = absurd h
    save_sent_keeps-IsStored t (r ∷ rs) h = elim (Bool-cases (is_same_call s r)) [
      | inl e ↦
          rw (e, save_sent)
            (elim h [ inl (k, _, _, _) ↦ inl (k, now.0, now.1, now.2) | inr k ↦ inr k ])
      | inr e ↦
          rw (e, save_sent)
            (elim h [ inl k ↦ inl k | inr k ↦ inr (save_sent_keeps-IsStored t rs k) ])
    ]

    save_sent-IsStored :
        (rows : List (WeeklySignal F)) → HasRow s rows → IsStored c s (save_sent s rows)
    unfolding save_sent
    save_sent-IsStored [] h = absurd h
    save_sent-IsStored (r ∷ rs) h = elim (Bool-cases (is_same_call s r)) [
      | inl e ↦ rw (e, save_sent) (inl (call_row s r e, now.0, now.1, now.2))
      | inr e ↦
          rw (e, save_sent)
            (elim h [ inl k ↦ absurd (not_row s r k e) | inr k ↦ inr (save_sent-IsStored rs k) ])
    ]

  delivered_to-IsStored :
      (c : Sending F) (s : WeeklySignal F) (rows : List (WeeklySignal F)) (xs : List Channel)
      → HasRow s rows
      → let (o, end) = delivered_to c s rows xs in o.delivered ≡ true → IsStored c o.signal end
  unfolding delivered_to
  delivered_to-IsStored c s rows [] h d = absurd cc
  delivered_to-IsStored c s rows (x ∷ xs) h d =
      save_sent-IsStored c (record s { channels = x ∷ xs; status = sent; sent_at = some c.now })
        (refl, refl, λ k. cc) rows h

  delivered_to_keeps :
      (c : Sending F) (s t : WeeklySignal F) (rows : List (WeeklySignal F)) (xs : List Channel)
      → let end = (delivered_to c s rows xs).1 in
        (HasRow t rows → HasRow t end) × (IsStored c t rows → IsStored c t end)
  unfolding delivered_to
  delivered_to_keeps c s t rows [] = (λ h. h, λ h. h)
  delivered_to_keeps c s t rows (x ∷ xs) =
      let s' = record s { channels = x ∷ xs; status = sent; sent_at = some c.now } in
      (save_sent_keeps-HasRow t s' rows, save_sent_keeps-IsStored c s' (refl, refl, λ k. cc) t rows)

  send_one-IsStored :
      (c : Sending F) (s : WeeklySignal F) (rows : List (WeeklySignal F))
      → HasRow s rows
      → let (o, end) = send_one c s rows in o.delivered ≡ true → IsStored c o.signal end
  unfolding send_one deliver_signal
  send_one-IsStored c s rows h = elim (Bool-cases (is_due c s)) [
    | inl e ↦ rw (e, send_one) (delivered_to-IsStored c s rows (deliver (c.accepts s) c.channels) h)
    | inr e ↦ rw (e, send_one) (λ d. absurd cc)
  ]

  send_one_keeps :
      (c : Sending F) (s t : WeeklySignal F) (rows : List (WeeklySignal F))
      → let end = (send_one c s rows).1 in
        (HasRow t rows → HasRow t end) × (IsStored c t rows → IsStored c t end)
  unfolding send_one deliver_signal
  send_one_keeps c s t rows = elim (Bool-cases (is_due c s)) [
    | inl e ↦ rw (e, send_one) (delivered_to_keeps c s t rows (deliver (c.accepts s) c.channels))
    | inr e ↦ rw (e, send_one) (λ h. h, λ h. h)
  ]

  send_all_keeps :
      (c : Sending F) (t : WeeklySignal F) (ss rows : List (WeeklySignal F))
      → IsStored c t rows
      → IsStored c t (send_all c ss rows).2
  unfolding send_all
  send_all_keeps c t [] rows h = h
  send_all_keeps c t (s ∷ ss) rows h =
      send_all_keeps c t ss (send_one c s rows).1 ((send_one_keeps c s t rows).1 h)

  All-HasRow-send_one :
      (c : Sending F) (s : WeeklySignal F) (ts rows : List (WeeklySignal F))
      → All (λ t. HasRow t rows) ts
      → All (λ t. HasRow t (send_one c s rows).1) ts
  All-HasRow-send_one c s [] rows h = tt
  All-HasRow-send_one c s (t ∷ ts) rows (k, h) =
      ((send_one_keeps c s t rows).0 k, All-HasRow-send_one c s ts rows h)

  -- Every signal that is delivered is stored at the end.
  pub send_all-IsStored :
      (c : Sending F) (ss rows : List (WeeklySignal F))
      → All (λ s. HasRow s rows) ss
      → let (m, os, end) = send_all c ss rows in
        All (λ o. o.delivered ≡ true → IsStored c o.signal end) os
  unfolding send_all
  send_all-IsStored c [] rows h = tt
  send_all-IsStored c (s ∷ ss) rows (k, h) =
      let rows' = (send_one c s rows).1 in
      (
        (λ d.
            send_all_keeps c (send_one c s rows).0.signal ss rows'
              (send_one-IsStored c s rows k d)),
        send_all-IsStored c ss rows' (All-HasRow-send_one c s ss rows h),
      )
