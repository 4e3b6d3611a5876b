-- ===== src/Paging/Tree/Mapped.antt =====
-- A range of addresses that consists of mapped pages.
use sys_hyper.Base.{ℕ, ◌+◌, ◌-◌, ◌%◌, ◌≤◌, ◌<◌, ◌≡◌, refl, ◌∙◌, arith}
use sys_hyper.Base.Result.{Result}
use sys_hyper.Memory.Frame.Bitmap.{BitAlloc}
use sys_hyper.Paging.PageSize.{PageSize, bytes}
use sys_hyper.Paging.Pte.{GenericPte}
use sys_hyper.Paging.Table.{PtState}
use sys_hyper.Paging.Tree.MapPage.{translate}
use sys_hyper.Paging.Tree.Pages.{bytes-pages}

module _ {State : Type 0} (B : BitAlloc State) (P : GenericPte) where
  -- From v on, n bytes are pages, one after the other, each of them in the table.
  pub data Pages (s : PtState State) : ℕ → ℕ → Type 0 where
    done : {v : ℕ} → Pages s v 0
    page :
        {v n : ℕ} (size : PageSize) (pa flags : ℕ)
        → v % bytes size ≡ 0
        → bytes size ≤ n
        → translate B P s v ≡ Result.ok (pa, flags, size)
        → Pages s (v + bytes size) (n - bytes size)
        → Pages s v n

  pub Pages-aligned : {s : PtState State} {v n : ℕ} → Pages s v n → n % 0x1000 ≡ 0
  Pages-aligned Pages.done = refl
  Pages-aligned (Pages.page size pa flags a le e rest) =
      omega (arith, Pages-aligned rest, bytes-pages size)

  -- They stay when the addresses translate as before.
  pub Pages-kept :
      {s s' : PtState State} {v n : ℕ}
      → ((va : ℕ) → v ≤ va → va < v + n → translate B P s' va ≡ translate B P s va)
      → Pages s v n
      → Pages s' v n
  Pages-kept h Pages.done = Pages.done
  Pages-kept {v} h (Pages.page size pa flags a le e rest) =
      let (whole, least) = bytes-pages size in
      Pages.page size pa flags a le (h v (omega arith) (omega arith) ∙ e)
        (Pages-kept (λ va lo hi. h va (omega arith) (omega arith)) rest)
