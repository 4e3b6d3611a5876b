-- ===== src/Virtio/Bridge.antt =====
-- The region that the hypervisor shares with the virtio devices of the root zone
-- (src/device/virtio_trampoline.rs). The devices take requests at `req_front`.
use sys_hyper.Base.{
  ℕ, zero, suc, ◌+◌, ◌-◌, ◌%◌, ◌^◌, ◌<◌, ◌≡◌, ◌≢◌, refl, sym, ◌∙◌, Bool, true, false, ◌==◌, ltb,
  if◌then◌else◌, Bool-cases, inl, inr, Option, none, some, List, [], ◌∷◌, ◌++◌, length, get_or, set,
  length-set, get_or-set_self, get_or-set_ne, bit_and, arith, lt→ltb,
}
use sys_hyper.Base.Bits.Mask.{bit_and-low_mask}
use sys_hyper.Base.Panics.{◌>>=◌, ◌>>◌, assert}

abbrev pub max_req : ℕ
max_req = 32

pub record HvisorDeviceReq : Type 0 where
  pub src_cpu : ℕ
  pub address : ℕ
  pub size : ℕ
  pub value : ℕ
  pub src_zone : ℕ
  pub is_write : ℕ
  pub need_interrupt : ℕ

unfoldable pub new_req : ℕ → ℕ → ℕ → ℕ → ℕ → Bool → ℕ → HvisorDeviceReq
new_req src_cpu address size value src_zone is_write need_interrupt = record {
  src_cpu = src_cpu;
  address = address;
  size = size;
  value = value;
  src_zone = src_zone;
  is_write = if is_write then 1 else 0;
  need_interrupt = need_interrupt;
}

pub record HvisorDeviceRes : Type 0 where
  pub target_zone : ℕ
  pub irq_id : ℕ

pub record VirtioBridge : Type 0 where
  pub req_front : ℕ
  pub req_rear : ℕ
  pub res_front : ℕ
  pub res_rear : ℕ
  pub req_list : List HvisorDeviceReq
  pub res_list : List HvisorDeviceRes
  pub cfg_flags : List ℕ
  pub cfg_values : List ℕ
  pub need_wakeup : ℕ

-- The address of the shared region, and the memory there.
pub record VirtioBridgeRegion : Type 0 where
  pub base_address : ℕ
  pub is_enable : Bool
  pub shared : VirtioBridge

unfoldable pub set_base_addr : ℕ → VirtioBridgeRegion → VirtioBridgeRegion
set_base_addr base_addr r = record r { base_address = base_addr; is_enable = true }

-- `region` and `immut_region`
unfoldable pub region : VirtioBridgeRegion → Option VirtioBridge
region r = if r.is_enable then some r.shared else none

unfoldable pub is_req_list_full : VirtioBridgeRegion → Option Bool
unfolding region
is_req_list_full r = do
  b ← region r
  assert (ltb (b.req_rear + 1) (2 ^ 32))
  some (bit_and (b.req_rear + 1) (max_req - 1) == b.req_front)

unfoldable pub is_req_list_empty : VirtioBridgeRegion → Option Bool
unfolding region
is_req_list_empty r = do b ← region r; some (b.req_rear == b.req_front)

unfoldable pub is_res_list_empty : VirtioBridgeRegion → Option Bool
unfolding region
is_res_list_empty r = do b ← region r; some (b.res_rear == b.res_front)

unfoldable pub push_req : HvisorDeviceReq → VirtioBridgeRegion → Option VirtioBridgeRegion
unfolding region
push_req req r = do
  b ← region r
  assert (ltb (b.req_rear + 1) (2 ^ 32))
  some (record r {
    shared = record b {
      req_list = set b.req_list (b.req_rear % max_req) req;
      req_rear = (b.req_rear + 1) % max_req;
    };
  })

unfoldable pub need_wakeup : VirtioBridgeRegion → Option Bool
unfolding region
need_wakeup r = do b ← region r; some (b.need_wakeup == 1)

-- The requests from the front to the rear.
abbrev pub no_req : HvisorDeviceReq
no_req = record {
  src_cpu = 0;
  address = 0;
  size = 0;
  value = 0;
  src_zone = 0;
  is_write = 0;
  need_interrupt = 0;
}

unfoldable pub collect : List HvisorDeviceReq → ℕ → ℕ → List HvisorDeviceReq
collect xs i zero = []
collect xs i (suc n) = get_or xs (i % max_req) no_req ∷ collect xs (i + 1) n

unfoldable pub count : VirtioBridge → ℕ
count b = (b.req_rear + max_req - b.req_front) % max_req

unfoldable pub requests : VirtioBridge → List HvisorDeviceReq
unfolding collect count
requests b = collect b.req_list b.req_front (count b)

pub record IsRing (b : VirtioBridge) : Type 0 where
  pub front : b.req_front < 32
  pub rear : b.req_rear < 32
  pub room : length b.req_list ≡ 32

collect-untouched :
    (xs : List HvisorDeviceReq) (req : HvisorDeviceReq) (at n i : ℕ)
    → ((k : ℕ) → k < n → (i + k) % 32 ≢ at)
    → collect (set xs at req) i n ≡ collect xs i n
unfolding collect
collect-untouched xs req at zero i h = refl
collect-untouched xs req at (suc n) i h =
    let z : i + 0 ≡ i = omega arith in
    let here : at ≢ i % 32 = λ e. h 0 (omega arith) (rw z (sym e)) in
    rw
      (
        get_or-set_ne xs at (i % 32) req no_req here,
        collect-untouched xs req at n (i + 1) (λ k lt e.
            let s : i + 1 + k ≡ i + suc k = omega arith in h (suc k) (omega arith) (rw s at e)),
      )
      refl

collect-snoc :
    (xs : List HvisorDeviceReq) (n i : ℕ)
    → collect xs i (n + 1) ≡ collect xs i n ++ get_or xs ((i + n) % 32) no_req ∷ []
unfolding collect
collect-snoc xs zero i = let z : i + 0 ≡ i = omega arith in rw z refl
collect-snoc xs (suc n) i =
    let z : suc n + 1 ≡ suc (n + 1) = omega arith in
    let o : i + suc n ≡ i + 1 + n = omega arith in rw (z, o, collect-snoc xs n (i + 1)) refl

module _ (b : VirtioBridge) (req : HvisorDeviceReq) (v : IsRing b)
    (room : (b.req_rear + 1) % 32 ≢ b.req_front) where
  abbrev pushed : VirtioBridge
  pushed = record b {
    req_list = set b.req_list (b.req_rear % max_req) req;
    req_rear = (b.req_rear + 1) % max_req;
  }

  pushed-count : count pushed ≡ count b + 1
  unfolding count
  pushed-count = omega (arith, v.front, v.rear, room)

  pushed-IsRing : IsRing pushed
  pushed-IsRing = record {
    front = v.front;
    rear = omega arith;
    room = length-set b.req_list _ req ∙ v.room;
  }

  last : (b.req_front + count b) % 32 ≡ b.req_rear
  unfolding count
  last = omega (arith, v.front, v.rear)

  apart :
      b.req_rear % 32 ≡ b.req_rear
      → (k : ℕ) → k < count b
      → (b.req_front + k) % 32 ≢ b.req_rear % 32
  unfolding count
  apart small k lt e = absurd (omega (arith, v.front, v.rear))

  pushed-requests : requests pushed ≡ requests b ++ req ∷ []
  unfolding requests
  pushed-requests =
      let small : b.req_rear % 32 ≡ b.req_rear = omega (arith, v.rear) in
      let xs = set b.req_list (b.req_rear % 32) req in
      let here : get_or xs ((b.req_front + count b) % 32) no_req ≡ req =
        rw (last, small) (get_or-set_self b.req_list b.req_rear req no_req (rw v.room v.rear)) in
      rw
        (
          pushed-count,
          collect-snoc xs (count b) b.req_front,
          here,
          collect-untouched b.req_list req (b.req_rear % 32) (count b) b.req_front (apart small),
        )
        refl

-- What a push does to the shared region.
abbrev pub Pushes : VirtioBridgeRegion → HvisorDeviceReq → Option VirtioBridgeRegion → Type 0
Pushes r req none = ⊥
Pushes r req (some t) =
    IsRing t.shared
    × (requests t.shared ≡ requests r.shared ++ req ∷ [])
    × (t.shared.req_front ≡ r.shared.req_front)
    × (t ≡ record r {
      shared = record r.shared { req_list = t.shared.req_list; req_rear = t.shared.req_rear };
    })

-- On an enabled region whose indices are below 32, and that `is_req_list_full` finds not full,
-- `push_req` does not panic: the requests from the front to the rear are those before it, in order,
-- followed by the new one, nothing but the list and the rear changes, and the indices are below 32.
pub push_req-Pushes :
    (r : VirtioBridgeRegion) (req : HvisorDeviceReq)
    → IsRing r.shared
    → is_req_list_full r ≡ some false
    → Pushes r req (push_req req r)
unfolding push_req is_req_list_full region
push_req-Pushes r req v full = elim (Bool-cases r.is_enable) [
  | inr off ↦ let none_left = rw off at full in cc none_left
  | inl on ↦
      let fits : ltb (r.shared.req_rear + 1) (2 ^ 32) ≡ true = lt→ltb _ _ (omega (arith, v.rear)) in
      let full' = rw (on, fits) at full in
      let room : (r.shared.req_rear + 1) % 32 ≢ r.shared.req_front =
        λ e. ground (arith, full', bit_and-low_mask 5 (r.shared.req_rear + 1)) in
      rw (on, fits)
        (pushed-IsRing r.shared req v room, pushed-requests r.shared req v room, refl, refl)
]
