-- ===== src/Io/Listing/Steps.antt =====
-- Each call on a state that shows a listing.
use nova.Base.{
  ℕ, ◌<◌, ◌≡◌, ◌≢◌, inl, inr, refl, sym, ap, ◌∙◌, Bool, true, false, List, length, ◌==◌, arith,
  Bool-cases, ne→==, eq→==, ==→eq,
}
use nova.Base.Words.{pos, negsuc}
use nova.Base.Heap.{has, without}
use nova.Io.State.{Ptr, null, World}
use nova.Io.Registry.{init_new, shut_down, io_init, io_shutdown, device_unregister}
use nova.Io.Registry.Shutdown.{freed, io_shutdown_lem}
use nova.Io.Registry.Unlink.{unlinked}
use nova.Io.Registry.Unregister.{device_unregister-cases}
use nova.Io.Chain.{Devices, Chain, stop, link}
use nova.Io.Listing.{
  Call, init, shutdown, register, unregister, find, get_by_number, code, invoke, Listing,
  expect_init, expect_shutdown, expect, fits, Shows, Meets,
}
use nova.Io.Listing.Lookups.{answered, find-Meets, get-Meets}
use nova.Io.Listing.Register.{register-Meets}

init_by :
    (w : World) (l : Listing) (fuel : ℕ) (b : Bool)
    → Shows w l
    → w.initialized ≡ b
    → Meets (invoke fuel init) w (code (pos 0), expect_init b l)
unfolding io_init
init_by w l fuel true s e = answered io_init code w (pos 0) w l (ap (λ b. init_new b w) e) s
init_by w l fuel false s e =
    answered io_init code w (pos 0)
      (record w { registry = null; next_major = 1; initialized = true }) (expect_init false l)
      (ap (λ b. init_new b w) e)
      (record { chain = stop; free = s.free; kept = s.kept; numbers = refl; started = refl })

freed-unlinked :
    (w : World) (l : Listing) (r : Ptr)
    → Shows w l
    → unlinked (freed w.devices l.listed r) ≡ freed l.infos l.listed r
freed-unlinked w l r s = elim (Bool-cases (has l.listed r)) [
  | inl t ↦ rw t
  | inr t ↦ rw t (s.kept r)
]

shutdown_by :
    (w : World) (l : Listing) (fuel : ℕ) (b : Bool)
    → Shows w l
    → length l.listed < fuel
    → w.initialized ≡ b
    → Meets (invoke fuel shutdown) w (code (pos 0), expect_shutdown b l)
unfolding io_shutdown
shutdown_by w l fuel false s f e =
    answered (io_shutdown fuel) code w (pos 0) w l (ap (λ b. shut_down fuel b w) e) s
shutdown_by w l fuel true s f e =
    let (g, run, same) = io_shutdown_lem w l.listed fuel s.chain f s.free e in
    answered (io_shutdown fuel) code w (pos 0)
      (record w { devices = g; registry = null; initialized = false }) (expect_shutdown true l) run
      (record {
        chain = stop;
        free = s.free;
        kept = λ r. ap unlinked (same r) ∙ freed-unlinked w l r s;
        numbers = s.numbers;
        started = refl;
      })

has-null : {h : Devices} {p : Ptr} {ps : List Ptr} → Chain h p ps → has ps null ≡ false
has-null stop = refl
has-null (link {p} n a o c) = rw (ne→== null p λ e. n (sym e)) (has-null c)

unregister-Meets :
    (w : World) (l : Listing) (fuel : ℕ) (dev : Ptr)
    → Shows w l
    → length l.listed < fuel
    → Meets (invoke fuel (unregister dev)) w (expect (unregister dev) l)
unfolding device_unregister
unregister-Meets w l fuel dev s f = elim (Bool-cases (dev == null)) [
  | inl t ↦
      rw (==→eq dev null t) (
        rw (has-null s.chain) (answered (device_unregister fuel null) code w (negsuc 0) w l refl s))
  | inr t ↦
      let n : dev ≢ null = λ e. ground (arith, eq→== dev null e, t) in
      elim (device_unregister-cases w l.listed fuel dev s.chain f s.free n) [
        | inl (out, run) ↦
            rw out (answered (device_unregister fuel dev) code w (negsuc 0) w l run s)
        | inr (g, q, there, run, c, alone, kept) ↦ rw there (
            answered (device_unregister fuel dev) code w (pos 0)
              (record w { devices = g; registry = q }) (record l { listed = without l.listed dev })
              run
              (record {
                chain = c;
                free = s.free;
                kept = λ r. kept r ∙ s.kept r;
                numbers = s.numbers;
                started = s.started;
              }))
      ]
]

pub invoke-Meets :
    (w : World) (l : Listing) (fuel : ℕ) (c : Call)
    → Shows w l
    → fits c l ≡ true
    → length l.listed < fuel
    → Meets (invoke fuel c) w (expect c l)
invoke-Meets w l fuel init s a f = init_by w l fuel l.initialized s s.started
invoke-Meets w l fuel shutdown s a f = shutdown_by w l fuel l.initialized s f s.started
invoke-Meets w l fuel (register dev) s a f = register-Meets w l fuel dev s a
invoke-Meets w l fuel (unregister dev) s a f = unregister-Meets w l fuel dev s f
invoke-Meets w l fuel (find path) s a f = find-Meets w l fuel path s f
invoke-Meets w l fuel (get_by_number major minor) s a f = get-Meets w l fuel major minor s f
