-- ===== src/StreamIngestor/Progress.antt =====
-- What a consumer has put into the buffer over a run of its loop.
use xyllo.Base.{
  Bytes, Bool, true, false, ◌++◌, ℕ, ◌+◌, ◌≤◌, Option, none, some, List, [], ◌∷◌, length, bytes_eq,
  length-append, All, All-append, ◌≡◌, refl, subst, ◌∙◌, ap, arith,
}
use xyllo.Dispatcher.{Payload}
use xyllo.Json.Numbers.{◌>>=◌}
use xyllo.Ingestor.Answers.{Kept, Queued}
use xyllo.RedisStore.{Message, Read, messages, read_error, x_read_group}
use xyllo.StreamIngestor.{
  Ack, Consumer, Draw, handle_message, handle_messages, Turn, cancelled, reads, consume_region,
  stream_key,
}
use xyllo.StreamIngestor.Delivery.{
  Delivered, without_data, unusable, unserialisable, withheld, queued, handle_message-Delivered,
}

-- The payloads added at the buffer's end are all of the region, and at least as many messages have
-- been acknowledged since.
pub record Progress (region : Bytes) (c c' : Consumer) : Type 0 where
  pub added : List Payload
  pub grown : c'.disp.buf ≡ c.disp.buf ++ added
  pub regional : All (λ p. p.source ≡ region) added
  pub acknowledged : length added + length c.acked ≤ length c'.acked

append-nil : (xs : List Payload) → xs ≡ xs ++ []
append-nil [] = refl
append-nil (x ∷ xs) = ap (λ ys. x ∷ ys) (append-nil xs)

append_assoc : (xs ys zs : List Payload) → (xs ++ ys) ++ zs ≡ xs ++ (ys ++ zs)
append_assoc [] ys zs = refl
append_assoc (x ∷ xs) ys zs = ap (λ ts. x ∷ ts) (append_assoc xs ys zs)

still :
    {region : Bytes} (c c' : Consumer)
    → c'.disp.buf ≡ c.disp.buf
    → length c.acked ≤ length c'.acked
    → Progress region c c'
still c c' e le = record {
  added = [];
  grown = e ∙ append-nil c.disp.buf;
  regional = tt;
  acknowledged = omega arith;
}

acked_more :
    {a : Ack} (c c' : Consumer) → c'.acked ≡ a ∷ c.acked → length c'.acked ≡ 1 + length c.acked
acked_more c c' e = rw e (omega arith)

Kept-buf : (c c' : Consumer) → Kept c.disp c'.disp → c'.disp.buf ≡ c.disp.buf
Kept-buf c c' (w, e) = ap (λ d. d.buf) e

Queued-buf :
    (p : Payload) (c c' : Consumer) → Queued p c.disp c'.disp → c'.disp.buf ≡ c.disp.buf ++ p ∷ []
Queued-buf p c c' (running, w, e) = ap (λ d. d.buf) e

Delivered-Progress :
    {region : Bytes} {draw : Draw} {raw : Option Bytes} {ack : Ack} (c c' : Consumer)
    → Delivered region draw raw ack c c'
    → Progress region c c'
Delivered-Progress c c' (without_data n a d) =
    let more = acked_more c c' a in still c c' (Kept-buf c c' d) (omega arith)
Delivered-Progress c c' (unusable s err r t a d) =
    let more = acked_more c c' a in still c c' (Kept-buf c c' d) (omega arith)
Delivered-Progress c c' (unserialisable s e r t m a d) =
    let more = acked_more c c' a in still c c' (Kept-buf c c' d) (omega arith)
Delivered-Progress c c' (withheld full a d) =
    still c c' (Kept-buf c c' d)
      (let same : length c'.acked ≡ length c.acked = ap length a in omega arith)
Delivered-Progress {region} c c' (queued s json e r t m room a d) =
    let more = acked_more c c' a in
    record {
      added = record { source = region; content = json } ∷ [];
      grown = Queued-buf _ c c' d;
      regional = (refl, tt);
      acknowledged = omega arith;
    }

then_Progress :
    {region : Bytes} (a b c : Consumer)
    → Progress region a b
    → Progress region b c
    → Progress region a c
then_Progress a b c p q = record {
  added = p.added ++ q.added;
  grown = q.grown ∙ ap (λ xs. xs ++ q.added) p.grown ∙ append_assoc a.disp.buf p.added q.added;
  regional = All-append _ p.added q.added p.regional q.regional;
  acknowledged =
      let first = p.acknowledged in
      let second = q.acknowledged in rw (length-append p.added q.added) (omega arith);
}

some-Progress :
    {region : Bytes} (c given wanted : Consumer)
    → some given ≡ some wanted
    → Progress region c given
    → Progress region c wanted
some-Progress {region} c given wanted e p =
    let same : given ≡ wanted = cc in subst (Progress region c) same p

bind-some :
    {A B : Type 0} (o : Option A) (f : A → Option B) (b : B)
    → (o >>= f) ≡ some b
    → (a : A) × (o ≡ some a) × (f a ≡ some b)
bind-some none f b e = absurd cc
bind-some (some a) f b e = (a, refl, e)

ended-Progress :
    {region : Bytes} (c : Consumer) (given wanted : Consumer × Bool)
    → some given ≡ some wanted
    → Progress region c given.0
    → Progress region c wanted.0
ended-Progress {region} c given wanted e p =
    let same : given ≡ wanted = cc in subst (λ w. Progress region c w.0) same p

messages-Progress :
    (stream region : Bytes) (draws : ℕ → Draw) (msgs : List Message) (c c' : Consumer)
    → handle_messages stream region draws msgs c ≡ some c'
    → Progress region c c'
unfolding handle_messages
messages-Progress stream region draws [] c c' e =
    some-Progress c c c' e (still c c refl (omega arith))
messages-Progress stream region draws (msg ∷ rest) c c' e =
    let (d, p, q) =
      bind-some (handle_message stream region msg (draws (length rest)) c)
        (handle_messages stream region draws rest) c' e in
    then_Progress c d c'
      (Delivered-Progress c d
        (handle_message-Delivered stream region msg (draws (length rest)) c d p))
      (messages-Progress stream region draws rest d c' q)

turn-Progress :
    (region : Bytes) (rest : List Turn) (r : Read) (stopped : Bool) (draws : ℕ → Draw)
    (c c' : Consumer) (ended : Bool)
    → (elim r [
      | read_error err ↦ elim stopped [
        | true ↦ some (c, true)
        | false ↦ consume_region region rest c
      ]
      | messages msgs ↦
          handle_messages (stream_key c.cfg region) region draws msgs c
          >>= consume_region region rest
    ])
      ≡ some (c', ended)
    → ((d : Consumer) → consume_region region rest d ≡ some (c', ended) → Progress region d c')
    → Progress region c c'
turn-Progress region rest (read_error err) true draws c c' ended e go =
    ended-Progress c (c, true) (c', ended) e (still c c refl (omega arith))
turn-Progress region rest (read_error err) false draws c c' ended e go = go c e
turn-Progress region rest (messages msgs) stopped draws c c' ended e go =
    let (d, p, q) =
      bind-some (handle_messages (stream_key c.cfg region) region draws msgs c)
        (consume_region region rest) (c', ended) e in
    then_Progress c d c' (messages-Progress (stream_key c.cfg region) region draws msgs c d p)
      (go d q)

-- Over any number of turns of its loop, whatever Redis answers, a consumer only adds payloads of
-- its region at the end of the buffer, and for each of them it acknowledges a message.
pub consume_region-Progress :
    (region : Bytes) (turns : List Turn) (c c' : Consumer) (ended : Bool)
    → consume_region region turns c ≡ some (c', ended)
    → Progress region c c'
unfolding consume_region
consume_region-Progress region [] c c' ended e =
    ended-Progress c (c, false) (c', ended) e (still c c refl (omega arith))
consume_region-Progress region (cancelled ∷ rest) c c' ended e =
    ended-Progress c (c, true) (c', ended) e (still c c refl (omega arith))
consume_region-Progress region (reads reply stopped draws ∷ rest) c c' ended e =
    turn-Progress region rest (x_read_group (stream_key c.cfg region) reply) stopped draws c c'
      ended e (λ d q. consume_region-Progress region rest d c' ended q)
