-- ===== src/Parser/Window.antt =====
-- internal/parser/parser.go: every event that the parser gives is of the target table and lies in the
-- time window.
use database_flashback.Base.{
  ◌≡◌, refl, sym, subst, ◌∙◌, ◌≢◌, ℕ, suc, ◌+◌, ◌-◌, ◌≤◌, Bool, true, false, not, ◌&&◌, Option,
  some, List, [], ◌∷◌, map, All, All-append, Bytes, length, drop, ltb, ◌==◌, ==_iff, Result, ok,
  OkThen, OkThen-any, OkThen-bind, Bool-cases, inl, inr, arith, eq_bytes_sound,
}
use database_flashback.Value.{EventType, insert_event, update_event, delete_event, RowEvent}
use database_flashback.Wire.{EventHeader, little_endian, bytes_at, byte_at}
use database_flashback.TableMap.{parse_table_map, registry_get}
use database_flashback.Rows.Event.{
  RowData, RowEventData, parse_write_rows_event, parse_delete_rows_event, parse_update_rows_event,
}
use database_flashback.Parser.Ddl.{is_ddl}
use database_flashback.Parser.Dispatch.{
  ParseOptions, BinlogParser, qualified, is_target, database_of, table_of, to_row_event,
  convert_to_row_events, handle_format_description_event, handle_table_map_event,
  handle_write_rows_event, handle_delete_rows_event, handle_update_rows_event, handle_rotate_event,
  record_ddl, handle_query_event, handler, handlers, dispatch,
}
use database_flashback.Parser.Files.{nanoseconds, is_before, is_after}

-- What the options say of an event.
pub record Wanted (opts : ParseOptions) (e : RowEvent) : Type 0 where
  pub target : opts.target_table ≢ [] → qualified e.database e.table ≡ opts.target_table
  pub start : (s : ℕ) → opts.start_time ≡ some s → s ≤ nanoseconds e.timestamp
  pub stop : (s : ℕ) → opts.end_time ≡ some s → nanoseconds e.timestamp ≤ s

-- The header's time is in the window.
abbrev InWindow : ParseOptions → EventHeader → Type 0
InWindow opts hdr =
    (is_before hdr.timestamp opts.start_time ≡ false)
    × (is_after hdr.timestamp opts.end_time ≡ false)

abbrev pub Kept : ParseOptions → BinlogParser → Type 0
Kept opts p = (p.opts ≡ opts) × All (Wanted opts) p.events

is_target-target :
    (target database table : Bytes)
    → is_target target database table ≡ true
    → target ≢ []
    → qualified database table ≡ target
unfolding is_target
is_target-target [] database table h n = absurd (n refl)
is_target-target (c ∷ target) database table h n = eq_bytes_sound _ _ h

start-window :
    (ts s : ℕ) (bound : Option ℕ) → is_before ts bound ≡ false → bound ≡ some s → s ≤ nanoseconds ts
start-window ts s bound h e = let h' = subst (λ b. is_before ts b ≡ false) e h in ground (arith, h')

stop-window :
    (ts s : ℕ) (bound : Option ℕ) → is_after ts bound ≡ false → bound ≡ some s → nanoseconds ts ≤ s
stop-window ts s bound h e = let h' = subst (λ b. is_after ts b ≡ false) e h in ground (arith, h')

module _ (opts : ParseOptions) (hdr : EventHeader) (window : InWindow opts hdr) where
  rows-Wanted :
      (database table : Bytes) (type : EventType) (rows : List RowData)
      → is_target opts.target_table database table ≡ true
      → All (Wanted opts) (map (to_row_event hdr database table type) rows)
  rows-Wanted database table type [] h = tt
  rows-Wanted database table type (row ∷ rows) h = (
    record {
      target = is_target-target opts.target_table database table h;
      start = λ s. start-window hdr.timestamp s opts.start_time window.0;
      stop = λ s. stop-window hdr.timestamp s opts.end_time window.1;
    },
    rows-Wanted database table type rows h,
  )

  convert_to_row_events-Kept :
      (p : BinlogParser) (rows : RowEventData) (type : EventType)
      → Kept opts p
      → Kept opts (convert_to_row_events p hdr rows type)
  unfolding convert_to_row_events
  convert_to_row_events-Kept p rows type (same, kept) =
      let tm = registry_get p.reg rows.table_id in
      let database = database_of tm in
      let table = table_of tm in
      elim (Bool-cases (is_target p.opts.target_table database table)) [
        | inl meant ↦
            let meant' = subst (λ o. is_target o.target_table database table ≡ true) same meant in
            rw meant (
              same,
              All-append (Wanted opts) p.events
                  (map (to_row_event hdr database table type) rows.rows) kept
                  (rows-Wanted database table type rows.rows meant'),
            )
        | inr passed ↦ rw passed (same, kept)
      ]

  handle_write-Kept :
      (p : BinlogParser) (payload : Bytes) (v2 : Bool)
      → Kept opts p
      → OkThen (Kept opts) (handle_write_rows_event p hdr payload v2)
  unfolding handle_write_rows_event
  handle_write-Kept p payload v2 k =
      OkThen-bind (λ rows. Unit {0}) (Kept opts)
        (parse_write_rows_event (suc (length payload)) (some p.reg) payload v2) _ (OkThen-any _)
        (λ rows u. convert_to_row_events-Kept p rows insert_event k)

  handle_delete-Kept :
      (p : BinlogParser) (payload : Bytes) (v2 : Bool)
      → Kept opts p
      → OkThen (Kept opts) (handle_delete_rows_event p hdr payload v2)
  unfolding handle_delete_rows_event
  handle_delete-Kept p payload v2 k =
      OkThen-bind (λ rows. Unit {0}) (Kept opts)
        (parse_delete_rows_event (suc (length payload)) (some p.reg) payload v2) _ (OkThen-any _)
        (λ rows u. convert_to_row_events-Kept p rows delete_event k)

  handle_update-Kept :
      (p : BinlogParser) (payload : Bytes) (v2 : Bool)
      → Kept opts p
      → OkThen (Kept opts) (handle_update_rows_event p hdr payload v2)
  unfolding handle_update_rows_event
  handle_update-Kept p payload v2 k =
      OkThen-bind (λ rows. Unit {0}) (Kept opts)
        (parse_update_rows_event (suc (length payload)) (some p.reg) payload v2) _ (OkThen-any _)
        (λ rows u. convert_to_row_events-Kept p rows update_event k)

module _ (opts : ParseOptions) where
  handle_format-Kept :
      (p : BinlogParser) (payload : Bytes)
      → Kept opts p
      → OkThen (Kept opts) (handle_format_description_event p payload)
  unfolding handle_format_description_event
  handle_format-Kept p payload k = elim (Bool-cases (ltb (length payload) 57)) [
    | inl short ↦ rw short tt
    | inr long ↦
        elim (Bool-cases (
          ltb 92 (length payload)
          && (byte_at payload (length payload - 1) == 1 && not p.skip_checksum))) [
            | inl checked ↦ rw (long, checked) k
            | inr unchecked ↦ rw (long, unchecked) k
          ]
  ]

  handle_table_map-Kept :
      (p : BinlogParser) (payload : Bytes)
      → Kept opts p
      → OkThen (Kept opts) (handle_table_map_event p payload)
  unfolding handle_table_map_event
  handle_table_map-Kept p payload k =
      OkThen-bind (λ tm. Unit {0}) (Kept opts) (parse_table_map payload) _ (OkThen-any _)
        (λ tm u. k)

  handle_rotate-Kept :
      (p : BinlogParser) (payload : Bytes)
      → Kept opts p
      → OkThen (Kept opts) (handle_rotate_event p payload)
  unfolding handle_rotate_event
  handle_rotate-Kept p payload k = elim (Bool-cases (ltb (length payload) 8)) [
    | inl short ↦ rw short tt
    | inr long ↦ rw long k
  ]

  record_ddl-Kept :
      (p : BinlogParser) (hdr : EventHeader) (database sql : Bytes)
      → Kept opts p
      → Kept opts (record_ddl p hdr database sql)
  unfolding record_ddl
  record_ddl-Kept p hdr database sql k = elim (Bool-cases (is_ddl sql)) [
    | inl ddl ↦ rw ddl k
    | inr other ↦ rw other k
  ]

  handle_query-Kept :
      (p : BinlogParser) (hdr : EventHeader) (payload : Bytes)
      → Kept opts p
      → OkThen (Kept opts) (handle_query_event p hdr payload)
  unfolding handle_query_event
  handle_query-Kept p hdr payload k =
      let at = 13 + little_endian (bytes_at payload 11 2) in
      elim (Bool-cases (ltb (length payload) 13)) [
        | inl short ↦ rw short k
        | inr long ↦ elim (Bool-cases (ltb (length payload) (at + byte_at payload 8 + 1))) [
          | inl cut ↦ rw (long, cut) k
          | inr whole ↦
              rw (long, whole)
                (record_ddl-Kept p hdr (bytes_at payload at (byte_at payload 8))
                  (drop (at + byte_at payload 8 + 1) payload) k)
        ]
      ]

  handler-Kept :
      (t : ℕ) (cases : List (ℕ × Result BinlogParser)) (other : Result BinlogParser)
      → All (λ c. t ≡ c.0 → OkThen (Kept opts) c.1) cases
      → OkThen (Kept opts) other
      → OkThen (Kept opts) (handler t cases other)
  unfolding handler
  handler-Kept t [] other h k = k
  handler-Kept t ((code, result) ∷ cases) other h k = elim (Bool-cases (t == code)) [
    | inl this ↦ rw this (h.0 ((==_iff t code).0 this))
    | inr later ↦ rw later (handler-Kept t cases other h.1 k)
  ]

  -- A FORMAT_DESCRIPTION event is let through whatever its time, but it adds no row event.
  pub dispatch-Kept :
      (p : BinlogParser) (hdr : EventHeader) (payload : Bytes)
      → Kept opts p
      → (hdr.type ≢ 15 → is_before hdr.timestamp opts.start_time ≡ false)
      → is_after hdr.timestamp opts.end_time ≡ false
      → OkThen (Kept opts) (dispatch p hdr payload)
  unfolding dispatch handlers
  dispatch-Kept p hdr payload k early late =
      let window : (code : ℕ) → code ≢ 15 → hdr.type ≡ code → InWindow opts hdr =
        λ code n e. (early (λ same. n (sym e ∙ same)), late) in
      handler-Kept hdr.type (handlers p hdr payload) (ok p)
        (
          (λ e. handle_format-Kept p payload k),
          (
            (λ e. handle_table_map-Kept p payload k),
            (
              (λ e.
                  handle_write-Kept opts hdr (window 23 (λ n. omega (arith, n)) e) p payload false
                    k),
              (
                (λ e.
                    handle_write-Kept opts hdr (window 30 (λ n. omega (arith, n)) e) p payload true
                      k),
                (
                  (λ e.
                      handle_update-Kept opts hdr (window 24 (λ n. omega (arith, n)) e) p payload
                        false k),
                  (
                    (λ e.
                        handle_update-Kept opts hdr (window 31 (λ n. omega (arith, n)) e) p payload
                          true k),
                    (
                      (λ e.
                          handle_delete-Kept opts hdr (window 25 (λ n. omega (arith, n)) e) p
                            payload false k),
                      (
                        (λ e.
                            handle_delete-Kept opts hdr (window 32 (λ n. omega (arith, n)) e) p
                              payload true k),
                        (
                          (λ e. handle_rotate-Kept p payload k),
                          ((λ e. k), ((λ e. handle_query-Kept p hdr payload k), tt)),
                        ),
                      ),
                    ),
                  ),
                ),
              ),
            ),
          ),
        )
        k
