-- ===== src/Tests/Server.antt =====
-- A Redis server and a transactional store in memory, with the documented behaviour.
use edn_core.Prelude.{ℕ, suc, ◌+◌, ◌≡◌, refl, Bool, true, false, Option, none, some, List, ◌∷◌}
use edn_core.Text.{Text}
use edn_core.Checkout.{Time}
use edn_core.Mongo.{inserted, duplicate_key, insert_failed}
use edn_core.Redis.{
  Stored, text, number, Entry, Entries, live, put, expiring, value_of, GetReply, value, nil, Redis,
  RedisLaws, SetNx, script_effect, Got, count_live, OnlyKey,
}
use edn_core.Whatsapp.{DedupeRecord, MessageReceipt}
use edn_core.Whatsapp.Store.{Outcome, ran, has_dedupe, Sessions, SessionsLaws, Transacted}

abbrev reply_of : Option Stored → GetReply
reply_of none = nil
reply_of (some v) = value v

abbrev next_count : Option Stored → ℕ
next_count none = 1
next_count (some (text _)) = 1
next_count (some (number n)) = suc n

abbrev kept_until : Time → Option Entry → Option Entry
kept_until deadline none = none
kept_until deadline (some e) = some (record e { deadline = some deadline })

abbrev set_if_free : Bool → Text → Stored → ℕ → Time → Entries → Entries × Option Bool
set_if_free true key v ttl now es = (es, some false)
set_if_free false key v ttl now es = (put key (expiring v ttl now) es, some true)

abbrev pub server : Redis
server = record {
  State = Entries;
  entries = λ es. es;
  set = λ key v ttl now es. (put key (expiring (text v) ttl now) es, true);
  set_nx = λ key v ttl now es. set_if_free (live now (es key)) key (text v) ttl now es;
  get = λ key now es. reply_of (value_of now (es key));
  exists_both = λ j k now es. some (count_live now (es j), count_live now (es k));
  del = λ key now es. (put key none es, true);
  run_script = λ script key arg now es.
      (script_effect script key arg now es, some (script (value_of now (es key)) arg).1);
  incr = λ key now es.
      let n = next_count (value_of now (es key)) in
      (put key (some (record { value = number n; deadline = none })) es, some n);
  expire = λ key ttl now es. (put key (kept_until (now + ttl) (es key)) es, true);
}

set_if_free-SetNx :
    (key : Text) (v : Stored) (ttl : ℕ) (now : Time) (es : Entries)
    → SetNx key v ttl now es
        (set_if_free (live now (es key)) key v ttl now es).1
        (set_if_free (live now (es key)) key v ttl now es).0
set_if_free-SetNx key v ttl now es = go (live now (es key)) refl
  where
    go :
        (b : Bool)
        → live now (es key) ≡ b
        → SetNx key v ttl now es
            (set_if_free b key v ttl now es).1
            (set_if_free b key v ttl now es).0
    go true e = (e, λ k. refl)
    go false e = (e, λ k. refl)

put-OnlyKey : (key : Text) (e : Option Entry) (es : Entries) → OnlyKey key es (put key e es)
put-OnlyKey key e es k ne = rw ne

reply_of-Got : (o : Option Stored) → Got o (reply_of o)
reply_of-Got none = refl
reply_of-Got (some v) = refl

pub server-RedisLaws : RedisLaws server
server-RedisLaws = record {
  set_law = λ k v ttl now es key. refl;
  set_nx_law = λ k v ttl now es. set_if_free-SetNx k (text v) ttl now es;
  get_law = λ k now es. reply_of-Got (value_of now (es k));
  exists_law = λ j k now es m n e. (cc, cc);
  del_law = λ k now es key. refl;
  script_law = λ f k arg now es. (refl, λ key. refl);
  incr_law = λ k now es. put-OnlyKey k _ es;
  expire_law = λ k ttl now es. put-OnlyKey k _ es;
}

abbrev Records : Type 0
Records = List DedupeRecord × List MessageReceipt

abbrev transact : Bool → DedupeRecord → MessageReceipt → Records → Records × Outcome
transact true d r records = (records, ran duplicate_key insert_failed)
transact false d r (ds, rs) = ((d ∷ ds, r ∷ rs), ran inserted inserted)

abbrev pub sessions : Sessions
sessions = record {
  State = Records;
  dedupes = λ records. records.0;
  receipts = λ records. records.1;
  with_transaction = λ d r records. transact (has_dedupe d.dedupe_key records.0) d r records;
}

transact-Transacted :
    (d : DedupeRecord) (r : MessageReceipt) (ds : List DedupeRecord) (rs : List MessageReceipt)
    (taken : Bool)
    → has_dedupe d.dedupe_key ds ≡ taken
    → Transacted d r ds rs
        (transact taken d r (ds, rs)).1
        (transact taken d r (ds, rs)).0.0
        (transact taken d r (ds, rs)).0.1
transact-Transacted d r ds rs true e = (e, (refl, refl))
transact-Transacted d r ds rs false e = (e, refl, refl)

pub sessions-SessionsLaws : SessionsLaws sessions
sessions-SessionsLaws = record {
  transaction_law = λ d r records.
      transact-Transacted d r records.0 records.1 (has_dedupe d.dedupe_key records.0) refl;
}
