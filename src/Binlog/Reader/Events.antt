-- ===== src/Binlog/Reader/Events.antt =====
-- What the reader makes of an event as MySQL writes it.
use gh_ost_cpp.Base.{
  length, drop, is_empty, Bytes, ℕ, zero, suc, ◌+◌, ◌*◌, ◌/◌, ◌%◌, ◌^◌, ◌≤◌, ◌<◌, ◌≡◌, refl, ap,
  ◌∙◌, Bool, true, false, [], ◌∷◌, ◌++◌, arith,
}
use gh_ost_cpp.Binlog.Coordinates.{BinlogCoordinates}
use gh_ost_cpp.Binlog.Entry.{
  is_for_table, query, format_description, unknown_event, BinlogEventType,
}
use gh_ost_cpp.Binlog.Reader.{
  BinlogReader, read_number, parse_event, event_type_of, header_entry, new_entry, byte_at,
}

-- A number in so many bytes, the low one first.
unfoldable pub number_bytes : ℕ → ℕ → Bytes
number_bytes zero x = []
number_bytes (suc n) x = x % 256 ∷ number_bytes n (x / 256)

abbrev limit : ℕ → ℕ
limit zero = 1
limit (suc n) = 256 * limit n

read_number-number_bytes :
    (n x : ℕ) (s : Bytes) → x < limit n → read_number n (number_bytes n x ++ s) ≡ x
unfolding read_number number_bytes
read_number-number_bytes zero x s h = omega arith
read_number-number_bytes (suc n) x s h =
    rw (read_number-number_bytes n (x / 256) s (omega arith)) (omega arith)

-- An event: its time, its type, the server, its size, the position behind it, its flags, its body.
pub record Event : Type 0 where
  pub timestamp : ℕ
  pub type_code : ℕ
  pub server_id : ℕ
  pub size : ℕ
  pub log_position : ℕ
  pub flags : ℕ
  pub body : Bytes

abbrev pub event_bytes : Event → Bytes
event_bytes e =
    number_bytes 4 e.timestamp
    ++ (e.type_code
        ∷ (number_bytes 4 e.server_id
            ++ (number_bytes 4 e.size
                ++ (number_bytes 4 e.log_position ++ (number_bytes 2 e.flags ++ e.body)))))

length-event_bytes : (e : Event) → length (event_bytes e) ≡ 19 + length e.body
unfolding number_bytes
length-event_bytes e = omega arith

drop-event_bytes : (e : Event) → drop 19 (event_bytes e) ≡ e.body
unfolding number_bytes
drop-event_bytes e = refl

byte_at-event_bytes : (e : Event) → byte_at 4 (event_bytes e) ≡ e.type_code
unfolding number_bytes
byte_at-event_bytes e = refl

read_number-timestamp :
    (e : Event) → e.timestamp < 2 ^ 32 → read_number 4 (event_bytes e) ≡ e.timestamp
read_number-timestamp e h = read_number-number_bytes 4 e.timestamp _ h

read_number-server_id :
    (e : Event) → e.server_id < 2 ^ 32 → read_number 4 (drop 5 (event_bytes e)) ≡ e.server_id
unfolding number_bytes
read_number-server_id e h = read_number-number_bytes 4 e.server_id _ h

header_entry-event_bytes :
    (e : Event)
    → e.timestamp < 2 ^ 32
    → e.server_id < 2 ^ 32
    → header_entry (event_bytes e) ≡ record new_entry {
      event_type = event_type_of e.type_code;
      timestamp = e.timestamp;
      server_id = e.server_id;
    }
header_entry-event_bytes e t s =
    rw (byte_at-event_bytes e, read_number-timestamp e t, read_number-server_id e s) refl

-- the types whose entries have no parser of their own
abbrev is_plain : BinlogEventType → Bool
is_plain query = true
is_plain format_description = true
is_plain unknown_event = true
is_plain _ = false

parse_event-enough :
    (event_data : Bytes) (r : BinlogReader)
    → 19 ≤ length event_data
    → is_plain (event_type_of (byte_at 4 event_data)) ≡ true
    → parse_event event_data r ≡ (header_entry event_data, r)
unfolding parse_event
parse_event-enough event_data r h p = ground arith

-- An event of a type with no parser of its own keeps the time and the server of its header, and
-- leaves the reader as it is.
pub parse_event-header :
    (e : Event) (r : BinlogReader)
    → is_plain (event_type_of e.type_code) ≡ true
    → e.timestamp < 2 ^ 32
    → e.server_id < 2 ^ 32
    → parse_event (event_bytes e) r ≡ (
      record new_entry {
        event_type = event_type_of e.type_code;
        timestamp = e.timestamp;
        server_id = e.server_id;
      },
      r,
    )
parse_event-header e r plain t s =
    parse_event-enough (event_bytes e) r (omega (arith, length-event_bytes e))
      (ap (λ c. is_plain (event_type_of c)) (byte_at-event_bytes e) ∙ plain)
    ∙ ap (λ x. (x, r)) (header_entry-event_bytes e t s)

abbrev pub rotation : Event → BinlogCoordinates → Bytes
rotation e c = event_bytes (record e { type_code = 4; body = number_bytes 8 c.position ++ c.file })

-- Whatever bytes it reads, the reader never makes a row event for a table of a database that has a
-- name.
pub parse_event-is_for_table :
    (event_data : Bytes) (r : BinlogReader) (database table : Bytes)
    → is_empty database ≡ false
    → is_for_table (parse_event event_data r).0 database table ≡ false
unfolding is_for_table parse_event
parse_event-is_for_table event_data r database table h = ground arith
