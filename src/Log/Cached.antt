-- ===== src/Log/Cached.antt =====
-- The text that the clock of the log keeps is the time's.
use wslyh.Base.{
  Bool, Bytes, [], ap, append_assoc, arith, false, if◌then◌else◌, length, length-append,
  length-padded_four, length-padded_two, padded, print_at, refl, splice, splice-append,
  splice-whole, sym, take, take-all, true, ℕ, ◌%◌, ◌++◌, ◌+◌, ◌/◌, ◌<◌, ◌==◌, ◌∙◌, ◌∷◌, ◌≡◌,
}
use wslyh.Log.{
  Tm, UtcTime, add_time_all, add_time_sec, get_cur_time, minute_text, update_time, utc_time,
}

-- the time in print, `%04d-%02d-%02d %02d:%02d:%02d`
abbrev pub stamp : Tm → Bytes
stamp c =
    minute_text (c.tm_year + 1900) (c.tm_mon + 1) c.tm_mday c.tm_hour c.tm_min ++ padded 2 c.tm_sec

-- the clock that holds the second `now` of the local time `c`
abbrev pub holding : Tm → ℕ → UtcTime
holding c now = record {
  time_cache = stamp c ++ 0 ∷ [];
  year = c.tm_year + 1900;
  month = c.tm_mon + 1;
  day = c.tm_mday;
  hour = c.tm_hour;
  minute = c.tm_min;
  sec = c.tm_sec;
  cache_sec = now;
  cache_min = now / 60;
}

-- the ranges of a time before the year 10000
abbrev pub InRange : Tm → Type 0
InRange c =
    (c.tm_sec < 61)
    × (c.tm_min < 60)
    × (c.tm_hour < 24)
    × (c.tm_mday < 32)
    × (c.tm_mon < 12)
    × (c.tm_year + 1900 < 10000)

length-minute_text :
    (c : Tm)
    → InRange c
    → length (minute_text (c.tm_year + 1900) (c.tm_mon + 1) c.tm_mday c.tm_hour c.tm_min) ≡ 17
length-minute_text c (s, m, h, d, n, y) =
    let minutes = padded 2 c.tm_min ++ b':' ∷ [] in
    let hours = padded 2 c.tm_hour ++ b':' ∷ minutes in
    let days = padded 2 c.tm_mday ++ b' ' ∷ hours in
    let months = padded 2 (c.tm_mon + 1) ++ b'-' ∷ days in
    omega (
      arith,
      length-append (padded 4 (c.tm_year + 1900)) (b'-' ∷ months),
      length-append (padded 2 (c.tm_mon + 1)) (b'-' ∷ days),
      length-append (padded 2 c.tm_mday) (b' ' ∷ hours),
      length-append (padded 2 c.tm_hour) (b':' ∷ minutes),
      length-append (padded 2 c.tm_min) (b':' ∷ []),
      length-padded_four (c.tm_year + 1900) (omega arith) y,
      length-padded_two (c.tm_mon + 1) (omega arith),
      length-padded_two c.tm_mday (omega arith),
      length-padded_two c.tm_hour (omega arith),
      length-padded_two c.tm_min (omega arith),
    )

print_at-whole :
    (buf text : Bytes)
    → length buf ≡ 20
    → length text ≡ 19
    → print_at buf 0 20 text ≡ text ++ 0 ∷ []
print_at-whole buf text h l =
    ap (λ t. splice buf 0 (t ++ 0 ∷ [])) (take-all 19 text (omega arith))
    ∙ splice-whole buf (text ++ 0 ∷ []) (omega (arith, length-append text (0 ∷ [])))

print_at-behind :
    (text old new : Bytes)
    → length text ≡ 17
    → length old ≡ 2
    → length new ≡ 2
    → print_at ((text ++ old) ++ 0 ∷ []) 17 3 new ≡ (text ++ new) ++ 0 ∷ []
print_at-behind text old new h l k =
    rw
      (
        append_assoc text old (0 ∷ []),
        append_assoc text new (0 ∷ []),
        splice-append text (old ++ 0 ∷ []) (take 2 new ++ 0 ∷ []) 17 h,
        take-all 2 new (omega arith),
      )
      (ap (λ t. text ++ t)
        (splice-whole (old ++ 0 ∷ []) (new ++ 0 ∷ [])
          (omega (arith, length-append old (0 ∷ []), length-append new (0 ∷ [])))))

module _ (localtime : ℕ → Tm)
    (same_minute : (s t : ℕ)
      → s / 60 ≡ t / 60
      → localtime s ≡ record (localtime t) { tm_sec = s % 60 }) where
  length-holding : (now : ℕ) → InRange (localtime now) → length (stamp (localtime now)) ≡ 19
  length-holding now h =
      let c = localtime now in
      omega (
        arith,
        length-minute_text c h,
        length-padded_two c.tm_sec (omega (arith, h.0)),
        length-append (minute_text (c.tm_year + 1900) (c.tm_mon + 1) c.tm_mday c.tm_hour c.tm_min)
            (padded 2 c.tm_sec),
      )

  -- the constructor, on any array of 20 bytes
  pub utc_time-holding :
      (now : ℕ) (u : UtcTime)
      → InRange (localtime now)
      → length u.time_cache ≡ 20
      → utc_time localtime now u ≡ holding (localtime now) now
  utc_time-holding now u h l =
      ap (λ t. record (holding (localtime now) now) { time_cache = t })
        (print_at-whole u.time_cache (stamp (localtime now)) l (length-holding now h))

  add_time_sec-holding :
      (old now : ℕ)
      → InRange (localtime old)
      → now / 60 ≡ old / 60
      → add_time_sec (record (holding (localtime old) old) { cache_sec = now; sec = now % 60 })
        ≡ holding (localtime now) now
  add_time_sec-holding old now h e =
      let c = localtime old in
      let text = minute_text (c.tm_year + 1900) (c.tm_mon + 1) c.tm_mday c.tm_hour c.tm_min in
      let kept = record (holding c old) { cache_sec = now; sec = now % 60 } in
      rw (same_minute now old e) (
        ap (λ t. record kept { time_cache = t })
          (print_at-behind text (padded 2 c.tm_sec) (padded 2 (now % 60)) (length-minute_text c h)
            (length-padded_two c.tm_sec (omega (arith, h.0)))
            (length-padded_two (now % 60) (omega arith)))
        ∙ ap (λ m. record (holding (record c { tm_sec = now % 60 }) now) { cache_min = m }) (sym e))

  -- Where the clock holds the text and the parts of the local time of one second, GetCurTime at
  -- any second makes it hold those of that second, whether it takes the text as it is, prints its
  -- seconds anew or all of it, and gives the second and the milliseconds. The conditions: times in
  -- the same minute differ in localtime_r by their seconds only, and both times have the ranges of
  -- struct tm and lie before the year 10000.
  pub get_cur_time-holding :
      (old now usec : ℕ)
      → InRange (localtime old)
      → InRange (localtime now)
      → get_cur_time localtime now usec (holding (localtime old) old)
        ≡ (holding (localtime now) now, now, usec / 1000)
  unfolding get_cur_time
  get_cur_time-holding old now usec h l = by_second (now == old) refl
    where
      with_time : UtcTime → UtcTime × ℕ × ℕ
      with_time u = (u, u.cache_sec, usec / 1000)

      by_minute :
          (b : Bool)
          → (now / 60 == old / 60) ≡ b
          → with_time (
              if b
              then add_time_sec
                  (record (holding (localtime old) old) { cache_sec = now; sec = now % 60 })
              else add_time_all (
                  update_time localtime now
                    (record (holding (localtime old) old) { cache_sec = now })))
            ≡ with_time (holding (localtime now) now)
      by_minute true e = ap with_time (add_time_sec-holding old now h (ground arith))
      by_minute false e = ap with_time (
          utc_time-holding now (record (holding (localtime old) old) { cache_sec = now }) l
            (omega (arith, length-append (stamp (localtime old)) (0 ∷ []), length-holding old h)))

      by_second :
          (b : Bool)
          → (now == old) ≡ b
          → get_cur_time localtime now usec (holding (localtime old) old)
            ≡ with_time (holding (localtime now) now)
      by_second true e =
          let same : old ≡ now = ground arith in
          rw e (ap (λ n. with_time (holding (localtime n) n)) same)
      by_second false e = rw e (by_minute (now / 60 == old / 60) refl)
