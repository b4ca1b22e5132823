-- ===== src/State/Hours.antt =====
-- The hourly buckets against a grouping of the alerts by runs of the same hour.
use owl_sentry.Base.{
  ℕ, suc, ◌≤◌, ◌<◌, ◌≡◌, refl, sym, ap, ◌∙◌, ◌↔◌, inl, inr, true, false, Option, none, some, List,
  [], ◌∷◌, ◌++◌, map, append_assoc, append-nil, arith, ltb, if◌then◌else◌, Bool-cases, Option-cases,
  next_u64, length, trim_front, take_last, trim_front-eq-take_last, nat_eq, list_eq, pair_eq,
}
use owl_sentry.Alert.Types.{DateTime, Alert}
use owl_sentry.Ipc.{HourBucket}
use owl_sentry.State.{
  max_hour_buckets, new_state, same_instant, back, set_back, count_hour, truncate_to_hour,
  record_alert, stats_of, DaemonState,
}
use owl_sentry.State.Windows.{record_all}

abbrev bucket : DateTime → HourBucket
bucket hour = record { hour = hour; count = 1 }

abbrev bump_bucket : HourBucket → HourBucket
bump_bucket b = record b { count = next_u64 b.count }

-- `count_hour` with no bound.
push_hour : DateTime → List HourBucket → List HourBucket
push_hour hour [] = bucket hour ∷ []
push_hour hour (b ∷ []) =
    if same_instant b.hour hour then bump_bucket b ∷ [] else b ∷ bucket hour ∷ []
push_hour hour (b ∷ c ∷ bs) = b ∷ push_hour hour (c ∷ bs)

trim_front_of_le {ℓ} : {A : Type ℓ} (n : ℕ) (xs : List A) → length xs ≤ n → trim_front n xs ≡ xs
unfolding trim_front
trim_front_of_le n [] h = refl
trim_front_of_le n (x ∷ xs) h = ground arith

length-set_back {ℓ} : {A : Type ℓ} (v : A) (xs : List A) → length (set_back v xs) ≡ length xs
unfolding set_back
length-set_back v [] = refl
length-set_back v (x ∷ []) = refl
length-set_back v (x ∷ y ∷ xs) = ap suc (length-set_back v (y ∷ xs))

length-push_hour : (hour : DateTime) (bs : List HourBucket) → length bs ≤ length (push_hour hour bs)
unfolding push_hour
length-push_hour hour [] = omega arith
length-push_hour hour (b ∷ []) = ground arith
length-push_hour hour (b ∷ c ∷ bs) = omega (arith, length-push_hour hour (c ∷ bs))

abbrev pushed : DateTime → List HourBucket → Option HourBucket → List HourBucket
pushed hour bs none = bs ++ (bucket hour ∷ [])
pushed hour bs (some last) =
    if same_instant last.hour hour then set_back (bump_bucket last) bs else bs ++ (bucket hour ∷ [])

push_hour-back :
    (hour : DateTime) (bs : List HourBucket) → push_hour hour bs ≡ pushed hour bs (back bs)
unfolding push_hour back set_back
push_hour-back hour [] = refl
push_hour-back hour (b ∷ []) = refl
push_hour-back hour (b ∷ c ∷ bs) = elim (Option-cases (back (c ∷ bs))) [
  | inl e ↦ rw (push_hour-back hour (c ∷ bs), e)
  | inr (last, e) ↦ ground (arith, push_hour-back hour (c ∷ bs))
]

-- Within the bound nothing is dropped before the push.
count_hour_within :
    (n : ℕ) (hour : DateTime) (bs : List HourBucket)
    → length bs ≤ n
    → count_hour n hour bs ≡ trim_front n (push_hour hour bs)
unfolding count_hour
count_hour_within n hour bs h = rw (push_hour-back hour bs) (elim (Option-cases (back bs)) [
  | inl e ↦ rw (e, count_hour) refl
  | inr (last, e) ↦ elim (Bool-cases (same_instant last.hour hour)) [
    | inl same ↦
        rw (e, count_hour, same)
          (sym (trim_front_of_le n _ (omega (arith, length-set_back (bump_bucket last) bs))))
    | inr other ↦ rw (e, count_hour, other) refl
  ]
])

-- What has been dropped does not matter to the counting of the next alert.
count_hour-trim_front :
    (n : ℕ) (hour : DateTime) (bs : List HourBucket)
    → 0 < n
    → count_hour n hour (trim_front n bs) ≡ trim_front n (push_hour hour bs)
unfolding trim_front
count_hour-trim_front n hour [] h = count_hour_within n hour [] (omega arith)
count_hour-trim_front n hour (b ∷ []) h =
    let e : ltb n 1 ≡ false = ground arith in rw e (count_hour_within n hour (b ∷ []) (omega arith))
count_hour-trim_front n hour (b ∷ c ∷ bs) h = elim (Bool-cases (ltb n (suc (suc (length bs))))) [
  | inl e ↦
      let d : ltb n (suc (length (push_hour hour (c ∷ bs)))) ≡ true =
        ground (arith, length-push_hour hour (c ∷ bs)) in
      rw e (count_hour-trim_front n hour (c ∷ bs) h ∙ unfold push_hour in rw d)
  | inr e ↦ rw e (count_hour_within n hour (b ∷ c ∷ bs) (ground arith))
]

-- The specification: neighbours of the same hour make one bucket, with their number modulo 2^64.
join_hour : DateTime → List HourBucket → List HourBucket
join_hour hour [] = bucket hour ∷ []
join_hour hour (b ∷ bs) =
    if same_instant b.hour hour then bump_bucket b ∷ bs else bucket hour ∷ b ∷ bs

unfoldable pub group_hours : List DateTime → List HourBucket
unfolding join_hour
group_hours [] = []
group_hours (h ∷ hs) = join_hour h (group_hours hs)

same_instant_iff : (a b : DateTime) → (same_instant a b ≡ true) ↔ (a ≡ b)
same_instant_iff a b = ground arith

join-push :
    (g h : DateTime) (bs : List HourBucket)
    → push_hour h (join_hour g bs) ≡ join_hour g (push_hour h bs)
unfolding push_hour join_hour
join-push g h [] = ground (arith, same_instant_iff g h, same_instant_iff h g)
join-push g h (b ∷ []) = ground arith
join-push g h (b ∷ c ∷ bs) = ground arith

group_hours-concat :
    (hs : List DateTime) (h : DateTime)
    → group_hours (hs ++ (h ∷ [])) ≡ push_hour h (group_hours hs)
unfolding group_hours push_hour
group_hours-concat [] h = refl
group_hours-concat (g ∷ hs) h =
    ap (join_hour g) (group_hours-concat hs h) ∙ sym (join-push g h (group_hours hs))

module _ (from_timestamp : ℕ → ℕ → Option DateTime) where
  abbrev pub hours_of : List Alert → List DateTime
  hours_of log = map (λ a. truncate_to_hour from_timestamp a.timestamp) log

  hourly-record_all :
      (log : List Alert) (s : DaemonState) (hs : List DateTime)
      → s.hourly ≡ trim_front max_hour_buckets (group_hours hs)
      → (record_all from_timestamp log s).hourly
        ≡ trim_front max_hour_buckets (group_hours (hs ++ hours_of log))
  unfolding record_all record_alert
  hourly-record_all [] s hs e = rw append-nil e
  hourly-record_all (a ∷ log) s hs e =
      let h = truncate_to_hour from_timestamp a.timestamp in
      hourly-record_all log (record_alert from_timestamp a s) (hs ++ (h ∷ [])) (
        rw e (
          count_hour-trim_front max_hour_buckets h (group_hours hs) (omega arith)
          ∙ ap (trim_front max_hour_buckets) (sym (group_hours-concat hs h))))
      ∙ ap (λ x. trim_front max_hour_buckets (group_hours x))
          (append_assoc hs (h ∷ []) (hours_of log))

  -- After any alerts have been recorded in a new state, the hourly statistics are the last 48
  -- buckets of the alerts' hours, where neighbouring alerts of the same hour make one bucket. These
  -- need not be the last 48 hours: an hour without alerts makes no bucket, and one that is met again
  -- makes another.
  pub hourly-group_hours :
      (now : DateTime) (capacity : ℕ) (log : List Alert)
      → (stats_of (record_all from_timestamp log (new_state now capacity))).hourly
        ≡ take_last max_hour_buckets (group_hours (hours_of log))
  unfolding stats_of new_state group_hours trim_front
  hourly-group_hours now capacity log =
      hourly-record_all log (new_state now capacity) [] refl
      ∙ trim_front-eq-take_last max_hour_buckets (group_hours (hours_of log))
