-- ===== src/Intercept/Calls.antt =====
-- lib/memintercept.c: the calls of the allocator, and the messages that they send.
use memprof.Common.{if◌then◌else◌, ltb, ◌∷◌, [], List, Bool, ◌^◌, ◌%◌, ◌*◌, ◌-◌, ◌+◌, ℕ}
use memprof.Process.{mi_malloc, Operation, mi_realloc, mi_free, Info}
use memprof.Common.Word.{wrap32}
use memprof.Common.Outcome.{done, aborted, Outcome}

-- Whether `mi_check_init` and `mi_tracing` return true.
pub record Tracer : Type 0 where
  pub ready : Bool
  pub tracing : Bool

-- An MIInfo of zeros with the four fields that a call sets. `mi_write_stack` fills in the others.
abbrev pub message : Operation → ℕ → ℕ → ℕ → Info
message op old_ptr new_ptr size = record {
  operation = op;
  pid = 0;
  seqno = 0;
  old_ptr = old_ptr;
  new_ptr = new_ptr;
  size = size;
  stack_size = 0;
}

-- `if (mi_tracing ())`
unfoldable pub send : Tracer → Info → List Info
send t m = if t.tracing then m ∷ [] else []

-- The allocator below: the functions that `dlsym` found. An unready library returns NULL.
module _ (old_malloc : ℕ → ℕ) (old_realloc : ℕ → ℕ → ℕ) (old_memalign : ℕ → ℕ → ℕ) where
  unfoldable pub do_malloc : Tracer → ℕ → ℕ × List Info
  unfolding send
  do_malloc t size =
      if t.ready
      then (old_malloc size, send t (message mi_malloc 0 (old_malloc size) size))
      else (0, [])

  -- The product is an `int`, which is extended to a `size_t` of 64 bits.
  unfoldable pub total_size : ℕ → ℕ → ℕ
  total_size nmemb size =
      let total = wrap32 (nmemb * size) in
      if ltb total (2 ^ 31) then total else total + 2 ^ 64 - 2 ^ 32

  -- The result is cleared with `memset`.
  unfoldable pub do_calloc : Tracer → ℕ → ℕ → ℕ × List Info
  unfolding do_malloc total_size
  do_calloc t nmemb size = do_malloc t (total_size nmemb size)

  unfoldable pub do_memalign : Tracer → ℕ → ℕ → Outcome (ℕ × List Info)
  unfolding send
  do_memalign t boundary size =
      if t.ready
      then (let result = old_memalign boundary size in
          done (result, send t (message mi_malloc 0 result size)))
      else aborted

  unfoldable pub do_realloc : Tracer → ℕ → ℕ → ℕ × List Info
  unfolding send
  do_realloc t ptr size =
      if t.ready
      then (old_realloc ptr size, send t (message mi_realloc ptr (old_realloc ptr size) size))
      else (0, [])

  -- The block is freed before the message is sent.
  unfoldable pub do_free : Tracer → ℕ → List Info
  unfolding send
  do_free t ptr = if t.ready then send t (message mi_free ptr 0 0) else []

-- The allocator of WebKit.
module _ (old_fastMalloc : ℕ → ℕ) (old_fastCalloc old_fastRealloc : ℕ → ℕ → ℕ) where
  unfoldable pub fast_malloc : Tracer → ℕ → ℕ × List Info
  unfolding send
  fast_malloc t size =
      if t.ready
      then (old_fastMalloc size, send t (message mi_malloc 0 (old_fastMalloc size) size))
      else (0, [])

  unfoldable pub fast_realloc : Tracer → ℕ → ℕ → ℕ × List Info
  unfolding send
  fast_realloc t ptr size =
      if t.ready
      then (
        old_fastRealloc ptr size,
        send t (message mi_realloc ptr (old_fastRealloc ptr size) size),
      )
      else (0, [])

  unfoldable pub fast_free : Tracer → ℕ → List Info
  unfolding send
  fast_free t ptr = if t.ready then send t (message mi_free ptr 0 0) else []

  unfoldable pub fast_calloc : Tracer → ℕ → ℕ → ℕ × List Info
  unfolding send
  fast_calloc t nmemb size =
      let result = old_fastCalloc nmemb size in
      if t.ready
      then (result, send t (message mi_malloc 0 result ((nmemb * size) % 2 ^ 64)))
      else (0, [])
