-- ===== src/Io/Requests/Transfer.antt =====
-- The block transfers with a driver that answers.
use nova.Base.{
  ℕ, zero, suc, ◌≡◌, ◌≢◌, ◌⊎◌, refl, ap, ◌∙◌, Option, none, some, ◌==◌, Bool-cases, inl, inr, ne→==,
  eq→==, ◌*◌,
}
use mathlib.Core.Path.{fun_ext}
use nova.Base.Words.{u32, ℤ, pos, negsuc}
use nova.Base.Heap.{update}
use nova.Io.Calls.{load_dev_lem, load_req_lem}
use nova.Io.State.{
  Ptr, null, IoType, read, write, Status, pending, success, error, cancelled, DeviceType, block,
  char, network, framebuffer, input, audio, Device, Request, BlockOps, World, Cmd, ◌>>=◌, ◌>>◌,
}
use nova.Io.Requests.{
  new_request, request_alloc, request_free, io_wait, driver_of, outcome, refuse, collect, submit_to,
  io_submit, transfer, read_ops, block_write_sectors, block_read_sectors,
}

-- the request of a transfer
abbrev pub request : IoType → Ptr → ℕ → Ptr → ℕ → Request
request type dev sector buffer count = record {
  type = some type;
  status = pending;
  device = dev;
  offset = sector;
  buffer = buffer;
  length = u32 (count * 512);
  flags = 0;
  timeout_ms = 5000;
  error_code = pos 0;
}

-- the state in which the driver gets it
abbrev pub handed : World → Ptr → Request → World
handed w fresh r = record w { requests = update w.requests fresh (some r) }

-- What a transfer returns for what the driver has returned and left in the request: a driver's code
-- other than 0 as it is, 0 for a request that has succeeded, and the error code of any other.
abbrev pub settled : Status → ℤ → ℤ
settled success code = pos 0
settled pending code = code
settled error code = code
settled cancelled code = code

abbrev pub answer : ℤ → Request → ℤ
answer (pos zero) r = settled r.status r.error_code
answer (pos (suc n)) r = pos (suc n)
answer (negsuc n) r = negsuc n

pub update-update :
    {A : Type 0} (h : Ptr → Option A) (p : Ptr) (a b : Option A)
    → update (update h p a) p b ≡ update h p b
update-update h p a b = fun_ext λ q. elim (Bool-cases (q == p)) [ inl t ↦ rw t | inr t ↦ rw t ]

settled-outcome : (s : Status) (code : ℤ) → outcome s code ≡ settled s code
settled-outcome success code = refl
settled-outcome pending code = refl
settled-outcome error code = refl
settled-outcome cancelled code = refl

collect_lem :
    (w : World) (p : Ptr) (r : Request) (code : ℤ)
    → p ≢ null
    → w.requests p ≡ some r
    → collect code p w ≡ some (answer code r, w)
unfolding io_wait
collect_lem w p r (pos zero) n a =
    rw (◌>>=◌, load_req_lem w p r n a) (rw (◌>>=◌, load_req_lem w p r n a))
    ∙ ap (λ c. some (c, w)) (settled-outcome r.status r.error_code)
collect_lem w p r (pos (suc m)) n a = refl
collect_lem w p r (negsuc m) n a = refl

request_free_lem :
    (w : World) (p : Ptr) (r : Request)
    → p ≢ null
    → w.requests p ≡ some r
    → request_free p w ≡ some (tt, record w { requests = update w.requests p none })
unfolding request_free
request_free_lem w p r n a = rw (ne→== p null n) (rw (◌>>=◌, load_req_lem w p r n a))

read_ops_lem :
    (w : World) (dev : Ptr) (d : Device) (ops : BlockOps)
    → dev ≢ null
    → w.devices dev ≡ some d
    → d.block_ops ≡ some ops
    → read_ops dev w ≡ some (tt, w)
read_ops_lem w dev d ops m e o = rw (◌>>=◌, load_dev_lem w dev d m e) (rw o)

-- the request that nobody took
abbrev pub failed : Request → Request
failed r = record r { status = error; error_code = negsuc 0 }

refuse_lem :
    (w : World) (p : Ptr) (r : Request)
    → p ≢ null
    → refuse p (handed w p r) ≡ some (negsuc 0, handed w p (failed r))
refuse_lem w p r n =
    rw (◌>>=◌, load_req_lem (handed w p r) p r n (rw (eq→== p p refl)))
      (rw (update-update w.requests p (some r) (some (failed r))))

driver_none :
    (type : DeviceType) (ops : BlockOps)
    → (type ≢ block) ⊎ (ops.submit_io ≡ none)
    → driver_of type (some ops) ≡ none
driver_none block ops (inl h) = absurd (h refl)
driver_none block ops (inr h) = h
driver_none char ops h = refl
driver_none network ops h = refl
driver_none framebuffer ops h = refl
driver_none input ops h = refl
driver_none audio ops h = refl

module _ (call : Ptr → Ptr → Ptr → Cmd ℤ) where
  submit_lem :
      (w : World) (p dev : Ptr) (d : Device) (r : Request)
      → p ≢ null
      → w.requests p ≡ some r
      → (r.device ≡ dev)
      → dev ≢ null
      → r.buffer ≢ null
      → w.devices dev ≡ some d
      → io_submit call p w ≡ submit_to call (driver_of d.type d.block_ops) dev p w
  unfolding io_submit
  submit_lem w p dev d r n a l m b e = rw (ne→== p null n) (
      rw (◌>>=◌, load_req_lem w p r n a)
        (rw (l, ne→== dev null m, ne→== r.buffer null b) (rw (◌>>=◌, load_dev_lem w dev d m e))))

  -- From the state in which the request has been made to the one in which it has been freed.
  transfer_lem :
      (w : World) (fresh dev : Ptr) (d : Device) (type : IoType) (sector : ℕ) (buffer : Ptr)
      (count : ℕ)
      → fresh ≢ null
      → dev ≢ null
      → buffer ≢ null
      → w.devices dev ≡ some d
      → (code : ℤ) (v : World) (r : Request)
      → submit_to call
          (driver_of d.type d.block_ops)
          dev
          fresh
          (handed w fresh (request type dev sector buffer count))
        ≡ some (code, v)
      → v.requests fresh ≡ some r
      → transfer call fresh type dev sector buffer count (handed w fresh new_request)
        ≡ some (answer code r, record v { requests = update v.requests fresh none })
  unfolding transfer
  transfer_lem w fresh dev d type sector buffer count n m b e code v r run a =
      let q = request type dev sector buffer count in
      let here : (x : Request) → (handed w fresh x).requests fresh ≡ some x =
        λ x. rw (eq→== fresh fresh refl) in
      let sent : io_submit call fresh (handed w fresh q) ≡ some (code, v) =
        submit_lem (handed w fresh q) fresh dev d q n (here q) refl m b e ∙ run in
      rw (◌>>=◌, load_req_lem (handed w fresh new_request) fresh new_request n (here new_request))
        (rw (update-update w.requests fresh (some new_request) (some q)) (
          rw (◌>>=◌, sent)
            (rw (◌>>=◌, collect_lem v fresh r code n a)
              (rw (◌>>=◌, request_free_lem v fresh r n a)))))

  -- A transfer with a request that could be allocated, on a device whose operations are not NULL, from
  -- what `nova_io_submit` makes of the request.
  both_moved :
      (w : World) (fresh dev : Ptr) (d : Device) (ops : BlockOps) (sector : ℕ) (buffer : Ptr)
      (count : ℕ)
      → fresh ≢ null
      → dev ≢ null
      → buffer ≢ null
      → count ≢ 0
      → w.devices dev ≡ some d
      → d.block_ops ≡ some ops
      → (code : IoType → ℤ) (v : IoType → World) (r : IoType → Request)
      → ((t : IoType)
          → submit_to call
              (driver_of d.type d.block_ops)
              dev
              fresh
              (handed w fresh (request t dev sector buffer count))
            ≡ some (code t, v t))
      → ((t : IoType) → (v t).requests fresh ≡ some (r t))
      → (block_write_sectors call fresh dev sector buffer count w
          ≡ some (
            answer (code write) (r write),
            record (v write) { requests = update (v write).requests fresh none },
          ))
        × (block_read_sectors call fresh dev sector buffer count w
            ≡ some (
              answer (code read) (r read),
              record (v read) { requests = update (v read).requests fresh none },
            ))
  unfolding block_write_sectors block_read_sectors request_alloc
  both_moved w fresh dev d ops sector buffer count n m b c e o code v r run a =
      let made = handed w fresh new_request in
      let moved : (t : IoType)
          → transfer call fresh t dev sector buffer count made
            ≡ some (
              answer (code t) (r t),
              record (v t) { requests = update (v t).requests fresh none },
            ) =
        λ t.
          transfer_lem w fresh dev d t sector buffer count n m b e (code t) (v t) (r t) (run t)
            (a t) in
      (
        rw (ne→== dev null m, ne→== buffer null b, ne→== count 0 c, ne→== fresh null n)
            (rw (ne→== fresh null n) (moved write)),
        rw (ne→== dev null m, ne→== buffer null b, ne→== count 0 c, ne→== fresh null n)
            (rw (ne→== fresh null n)
              (rw (◌>>◌, ◌>>=◌, read_ops_lem made dev d ops m e o) (moved read))),
      )

  -- On a block device that has a `submit_io`, let that function return `code` for a request of each
  -- type and leave `r` where the request stands. Then both transfers, of one sector or more and a
  -- buffer other than NULL, with a request that could be allocated, return a `code` other than 0 as
  -- it is, and else what `r` says: 0 on success, and its error code otherwise. The driver gets a
  -- pending request with the device, the sector, the buffer and 512 bytes for each sector, modulo
  -- 2^32. Whatever it returns, the request is freed, and of the state that the driver leaves nothing
  -- else changes.
  pub block_sectors-answer :
      (w : World) (fresh dev : Ptr) (d : Device) (ops : BlockOps) (f : Ptr) (sector : ℕ)
      (buffer : Ptr) (count : ℕ)
      → fresh ≢ null
      → dev ≢ null
      → buffer ≢ null
      → count ≢ 0
      → w.devices dev ≡ some d
      → d.type ≡ block
      → d.block_ops ≡ some ops
      → ops.submit_io ≡ some f
      → (code : IoType → ℤ) (v : IoType → World) (r : IoType → Request)
      → ((t : IoType)
          → call f dev fresh (handed w fresh (request t dev sector buffer count))
            ≡ some (code t, v t))
      → ((t : IoType) → (v t).requests fresh ≡ some (r t))
      → (block_write_sectors call fresh dev sector buffer count w
          ≡ some (
            answer (code write) (r write),
            record (v write) { requests = update (v write).requests fresh none },
          ))
        × (block_read_sectors call fresh dev sector buffer count w
            ≡ some (
              answer (code read) (r read),
              record (v read) { requests = update (v read).requests fresh none },
            ))
  block_sectors-answer w fresh dev d ops f sector buffer count n m b c e k o g code v r run a =
      both_moved w fresh dev d ops sector buffer count n m b c e o code v r
        (λ t. rw (k, o) (rw g (run t))) a

  -- On any other device, or one without a `submit_io`, whose operations are not NULL, no function of
  -- a driver is called: both transfers return -1, and leave the state as it was, the request freed.
  pub block_sectors-refused :
      (w : World) (fresh dev : Ptr) (d : Device) (ops : BlockOps) (sector : ℕ) (buffer : Ptr)
      (count : ℕ)
      → fresh ≢ null
      → dev ≢ null
      → buffer ≢ null
      → count ≢ 0
      → w.devices dev ≡ some d
      → d.block_ops ≡ some ops
      → (d.type ≢ block) ⊎ (ops.submit_io ≡ none)
      → let freed = record w { requests = update w.requests fresh none } in
        (block_write_sectors call fresh dev sector buffer count w ≡ some (negsuc 0, freed))
        × (block_read_sectors call fresh dev sector buffer count w ≡ some (negsuc 0, freed))
  block_sectors-refused w fresh dev d ops sector buffer count n m b c e o h =
      let q : IoType → Request = λ t. request t dev sector buffer count in
      let v : IoType → World = λ t. handed w fresh (failed (q t)) in
      let (out, in_) =
        both_moved w fresh dev d ops sector buffer count n m b c e o (λ t. negsuc 0) v
          (λ t. failed (q t))
          (λ t. rw o (rw (driver_none d.type ops h) (refuse_lem w fresh (q t) n)))
          (λ t. rw (eq→== fresh fresh refl)) in
      (
        out
            ∙ ap (λ x. some (negsuc 0, record w { requests = x }))
                (update-update w.requests fresh (some (failed (q write))) none),
        in_
            ∙ ap (λ x. some (negsuc 0, record w { requests = x }))
                (update-update w.requests fresh (some (failed (q read))) none),
      )
