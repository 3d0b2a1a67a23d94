-- ===== src/Performance/Crew.antt =====
-- Starting threads and waiting for them, and how each main does so.
pub mod Rules
use nng_examples.Prelude.{ℕ, zero, suc, ◌^◌, ◌==◌, ltb, if◌then◌else◌, List, [], ◌∷◌}
use nng_examples.Platform.{Job, start_thread, join, Prog, ret, exit, fault, call, ◌>>=◌, ◌>>◌, act}

-- `new std::thread(...)`. A std::system_error is caught nowhere and aborts the process.
unfoldable pub start_job : Job → Prog ℕ
start_job j = call (start_thread j) λ a. if a.status == 0 then ret a.value else exit 134

unfoldable pub start_jobs : ℕ → Job → Prog (List ℕ)
start_jobs zero j = ret []
start_jobs (suc n) j = start_job j >>= λ i. start_jobs n j >>= λ is. ret (i ∷ is)

-- `for (int i = 0; i < n; i++) threads.push_back(new std::thread(...));`
unfoldable pub start_all : ℕ → Job → Prog (List ℕ)
start_all n j = if ltb n (2 ^ 31) then start_jobs n j else (start_jobs (2 ^ 31) j >>= λ _. fault)

-- `for (auto p : threads) p->join();`
unfoldable pub join_all : List ℕ → Prog (Unit {0})
join_all [] = ret tt
join_all (i ∷ is) = act (join i) >> join_all is
