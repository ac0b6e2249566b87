-- ===== src/Sample.antt =====
-- Test data: a kernel with two processors, task 7 ready at priority 5, a semaphore for which the
-- tasks 3 and 4 wait, an event flag for which 5 and 6 wait, and three domains, one in the other.
use tkernel.Base.{ℕ, ◌*◌, ◌^◌, ◌+◌, false, none, some, List, [], ◌∷◌, if◌then◌else◌, ◌==◌}
use tkernel.Kernel.{
  Kernel, Tcb, e_ok, Que, q_rdy, q_sem, q_flg, q_smbf, q_rmbf, q_mpf, q_mtx, q_mbx, Objects,
  ts_ready, ts_wait, wspec_none, cb_wait_release_tmout,
}

abbrev sample_tcb : ℕ → Tcb
sample_tcb t = record {
  tskid = 2 ^ 24 + (t + 1);
  tskatr = 0;
  priority = if t == 3 then 9 else 5;
  bpriority = if t == 3 then 9 else 5;
  ipriority = 5;
  state = if t == 7 then ts_ready else ts_wait;
  nodiswai = false;
  klockwait = false;
  klocked = false;
  wspec = wspec_none;
  wid = 2 ^ 24 + 1;
  wupcnt = 0;
  suscnt = 0;
  wercd = e_ok;
  sem_cnt = 2;
  flg_waiptn = 1;
  flg_wfmode = 0x20;
  flg_p_flgptn = 16 * t;
  smbf_msg = 2000 + 16 * t;
  smbf_msgsz = 6;
  rmbf_msg = 3000 + 16 * t;
  rmbf_msgsz = 0;
  mpf_p_blf = 4000 + 16 * t;
  mbx_ppk_msg = 4500 + 16 * t;
  mtxlist = [];
  waitmask = 0;
  tskevt = 0;
  slicetime = 0;
  slicecnt = 0;
  assprc = 3;
  sysmode = 0;
  stime = 0;
  utime = 0;
}

abbrev sample_que : Que → List ℕ
sample_que (q_rdy p) = if p == 5 then 7 ∷ [] else []
sample_que (q_sem i) = if i == 0 then 3 ∷ 4 ∷ [] else []
sample_que (q_flg i) = if i == 0 then 5 ∷ 6 ∷ [] else []
sample_que (q_smbf i) = []
sample_que (q_rmbf i) = []
sample_que (q_mpf i) = []
sample_que (q_mtx i) = []
sample_que (q_mbx i) = []

abbrev pub sample_semid : ℕ
sample_semid = 2 ^ 24 + 1

abbrev sample_domid : ℕ → ℕ
sample_domid d = if d == 2 then 2 ^ 24 + (2 ^ 16 + 2) else if d == 1 then 2 ^ 24 + 1 else 2 ^ 24

abbrev sample_objects : Objects
sample_objects = record {
  max_mbfid = 4;
  mbfcb = λ i. record {
    mbfid = if i == 0 then sample_semid else 0;
    mbfatr = 0;
    bufsz = 32;
    maxmsz = 20;
    frbufsz = 32;
    head = 24;
    tail = 24;
    buffer = 1000;
  };
  free_mbfcb = 1 ∷ [];
  max_mpfid = 4;
  mpfcb = λ i. record {
    mpfid = if i == 0 then sample_semid else 0;
    mpfatr = 0;
    mpfcnt = 4;
    blfsz = 8;
    mpfsz = 32;
    frbcnt = 4;
    mempool = 6000;
    unused = 6000;
    freelist = 0;
  };
  free_mpfcb = 1 ∷ [];
  max_mtxid = 4;
  mtxcb = λ i. record {
    mtxid = if i == 0 then sample_semid else 0;
    mtxatr = 2;
    ceilpri = 0;
    mtxtsk = none;
  };
  free_mtxcb = 1 ∷ [];
  max_mbxid = 4;
  mbxcb = λ i. record {
    mbxid = if i == 0 then sample_semid else 0;
    mbxatr = 0;
    mq_head = 0;
    mq_tail = 0;
  };
  free_mbxcb = 1 ∷ [];
  max_cycid = 4;
  cyccb = λ i. record {
    exinf = 0;
    cycatr = 0;
    cychdr = if i == 0 then 5000 else 0;
    sta = false;
    run = false;
    imm = false;
    cyctim = 100;
    cyctmeb_time = 30;
    cycid = if i == 0 then sample_semid else 0;
    assprc = 0;
    cycno = 0;
  };
  free_cyccb = 1 ∷ [];
  max_almid = 4;
  almcb = λ i. record {
    exinf = 0;
    almatr = 0;
    almhdr = if i == 0 then 5100 else 0;
    sta = false;
    run = false;
    imm = false;
    almtmeb_time = 0;
    almid = if i == 0 then sample_semid else 0;
    assprc = 0;
    almno = 0;
  };
  free_almcb = 1 ∷ [];
  handler_queue = λ p. record { upd = false; act = false; hdrque = [] };
  ipi_hdr = λ p. false;
  free_domcb = 3 ∷ 4 ∷ [];
  hash_size = λ ty. 4;
  oname_at = λ ty i. 8000 + 100 * i;
  default_object_name = 7999;
}

abbrev pub sample : Kernel
sample = record {
  num_proc = 2;
  max_tskid = 9;
  max_semid = 4;
  max_flgid = 4;
  max_domid = 4;
  oaplimit = 0;
  timer_period = 10;
  tcb = sample_tcb;
  que = sample_que;
  bitmap = λ a. if a == 0 then 32 else 0;
  klocktsk = none;
  top = some 7 ∷ none ∷ [];
  chg = false;
  ctxtsk = λ i. if i == 0 then some 7 else none;
  schedtsk = λ i. if i == 0 then some 7 else none;
  dispatch_disabled = λ i. 0;
  task_indp = λ i. false;
  int_disabled = λ i. false;
  timer_queue = record { time = 40; callback = cb_wait_release_tmout 3 } ∷ [];
  current_time = 0;
  semcb = λ i. record {
    semid = if i == 0 then sample_semid else 0;
    sematr = 0;
    semcnt = 1;
    maxsem = 10;
  };
  free_semcb = 1 ∷ 2 ∷ [];
  flgcb = λ i. record { flgid = if i == 0 then sample_semid else 0; flgatr = 8; flgptn = 2 };
  free_flgcb = [];
  domcb = λ d. record { domid = sample_domid d; domatr = 0; objcnt = 1 };
  hash_key = λ ty i. 0;
  mem = λ a. 0;
  obj = sample_objects;
}
