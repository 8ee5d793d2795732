-- ===== src/Controller/Lora/Queue.antt =====
-- gugaPI/app/lora_protocol.cpp: the ring of received frames is a queue.
use guga_pi.Controller.Lora.State.{LoraContext, LoraFrame, RxQueue, rx_queue_depth}
use guga_pi.Controller.Lora.Receive.{queue_parsed_frame, read_frame, next_index}
use guga_pi.Controller.DriverStatus.{ok, busy, DriverStatus}
use guga_pi.Common.{
  ℕ, List, ◌<◌, if◌then◌else◌, ◌≢◌, length, ◌≡◌, [], ◌==◌, ◌+◌, ◌∷◌, suc, Option, true, zero, ◌≤◌,
  ◌%◌, ◌-◌, ap, ltb, none, ◌++◌, arith, refl, some, sym, u8, Bool-cases, inl, inr,
}

-- The `n` frames from index `i` on, round the ring.
abbrev pub window : (ℕ → LoraFrame) → ℕ → ℕ → List LoraFrame
window slots i zero = []
window slots i (suc n) = slots i ∷ window slots (next_index i) n

-- The frames that wait, the oldest first.
abbrev pub contents : LoraContext → List LoraFrame
contents c = window c.queue.slots c.queue.tail c.queue.count

pub record IsRing (q : RxQueue) : Type 0 where
  pub tail_in : q.tail < rx_queue_depth
  pub count_fits : q.count ≤ rx_queue_depth
  pub head_follows : q.head ≡ (q.tail + q.count) % rx_queue_depth

abbrev put_frame : (ℕ → LoraFrame) → ℕ → LoraFrame → ℕ → LoraFrame
put_frame slots h f i = if i == h then f else slots i

window-put_frame :
    (slots : ℕ → LoraFrame) (f : LoraFrame) (h n i : ℕ)
    → i < 4
    → n < 4
    → h ≡ (i + n) % 4
    → window (put_frame slots h f) i (suc n) ≡ window slots i n ++ (f ∷ [])
window-put_frame slots f h zero i hi hn e = let same : i ≡ h = omega arith in ground arith
window-put_frame slots f h (suc n) i hi hn e =
    let rest =
      window-put_frame slots f h n (next_index i) (ground arith) (omega arith) (ground arith) in
    let other : i ≢ h = omega arith in ground (arith, rest)

window-suc :
    (slots : ℕ → LoraFrame) (i n : ℕ)
    → n ≢ 0
    → window slots i n ≡ slots i ∷ window slots (next_index i) (n - 1)
window-suc slots i zero h = absurd (h refl)
window-suc slots i (suc n) h =
    let e : suc n - 1 ≡ n = omega arith in ap (λ k. slots i ∷ window slots (next_index i) k) (sym e)

length-window : (slots : ℕ → LoraFrame) (i n : ℕ) → length (window slots i n) ≡ n
length-window slots i zero = refl
length-window slots i (suc n) = ap suc (length-window slots (next_index i) n)

-- The bounded queue that the ring implements.
abbrev pub enqueue : List LoraFrame → LoraFrame → List LoraFrame × DriverStatus
enqueue fs f = if ltb (length fs) rx_queue_depth then (fs ++ (f ∷ []), ok) else (fs, busy)

abbrev pub dequeue : List LoraFrame → List LoraFrame × Option LoraFrame
dequeue [] = ([], none)
dequeue (f ∷ fs) = (fs, some f)

pub queue_parsed_frame-IsRing :
    (c : LoraContext) → IsRing c.queue → IsRing (queue_parsed_frame c).0.queue
unfolding queue_parsed_frame
queue_parsed_frame-IsRing c v = ground arith

read_frame-IsRing : (c : LoraContext) → IsRing c.queue → IsRing (read_frame c).0.queue
unfolding read_frame
read_frame-IsRing c v = ground arith

-- A frame that finds room.
pub queue_parsed_frame-room :
    (c : LoraContext)
    → IsRing c.queue
    → c.queue.count < rx_queue_depth
    → (contents (queue_parsed_frame c).0 ≡ contents c ++ (c.parser.frame ∷ []))
      × ((queue_parsed_frame c).1 ≡ ok)
unfolding queue_parsed_frame
queue_parsed_frame-room c v room =
    let q = c.queue in
    let grown =
      window-put_frame q.slots c.parser.frame q.head q.count q.tail v.tail_in room v.head_follows in
    let e : u8 (q.count + 1) ≡ suc q.count = omega arith in ground (arith, grown)

queue_parsed_frame-full :
    (c : LoraContext)
    → rx_queue_depth ≤ c.queue.count
    → (contents (queue_parsed_frame c).0 ≡ contents c) × ((queue_parsed_frame c).1 ≡ busy)
unfolding queue_parsed_frame
queue_parsed_frame-full c full = ground arith

read_frame_lem :
    (c : LoraContext)
    → c.initialized ≡ true
    → IsRing c.queue
    → (contents (read_frame c).0, (read_frame c).1) ≡ dequeue (contents c)
unfolding read_frame
read_frame_lem c on v = elim (Bool-cases (c.queue.count == 0)) [
  | inl e ↦ let z : c.queue.count ≡ 0 = ground arith in rw (on, z) refl
  | inr e ↦
      let first = window-suc c.queue.slots c.queue.tail c.queue.count (ground arith) in
      let e' : u8 (c.queue.count - 1) ≡ c.queue.count - 1 = omega (arith, v.count_fits) in
      rw (on, e, e', first) refl
]

-- The ring implements the bounded queue: a parsed frame goes to its end unless four frames wait, a
-- read takes the oldest one, and both leave a ring.
pub queue_refines :
    (c : LoraContext)
    → c.initialized ≡ true
    → IsRing c.queue
    → (let (c', status) = queue_parsed_frame c in
        IsRing c'.queue × ((contents c', status) ≡ enqueue (contents c) c.parser.frame))
      × (let (c', frame) = read_frame c in
          IsRing c'.queue × ((contents c', frame) ≡ dequeue (contents c)))
queue_refines c on v = (
  (
    queue_parsed_frame-IsRing c v,
    elim (Bool-cases (ltb c.queue.count rx_queue_depth)) [
      | inl room ↦
          let (grown, status) = queue_parsed_frame-room c v (ground arith) in
          ground (arith, length-window c.queue.slots c.queue.tail c.queue.count)
      | inr full ↦
          let (same, status) = queue_parsed_frame-full c (ground arith) in
          ground (arith, length-window c.queue.slots c.queue.tail c.queue.count)
    ],
  ),
  (read_frame-IsRing c v, read_frame_lem c on v),
)
