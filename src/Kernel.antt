-- ===== src/Kernel.antt =====
-- The state of kernel/tkernel/smp_src: task control blocks (task.h), wait information (winfo.h),
-- the ready queue (ready_queue.h), timer events (timer.h), domains (mp_domain.c) and the control
-- blocks of the objects, with the operations of
-- include/sys/queue.h on the rings that link them.
--
-- A pointer to a TCB is the index of the TCB in `tcb_table`, and NULL is `none`. A ring of QUEUE
-- cells is the list of its entries from the head on. A C array is a function of its index.
pub mod Queue
pub mod Frame
pub mod Lists
use tkernel.Base.{
  ℕ, zero, suc, ◌+◌, ◌-◌, ◌≡◌, Bool, true, false, Option, none, some, List, [], ◌∷◌, if◌then◌else◌,
  ◌==◌, update, bit_and, not,
}
use tkernel.Str.{Mem}

-- TSTAT.
pub data Tstat : Type 0 where
  ts_nonexist ts_ready ts_wait ts_suspend ts_waitsus ts_dormant : Tstat

-- `state & TS_WAIT`: true of TS_WAIT (2) and TS_WAITSUS (6).
abbrev pub is_waiting : Tstat → Bool
is_waiting ts_wait = true
is_waiting ts_waitsus = true
is_waiting _ = false

-- ER. `done n` is the result n, which is not negative; E_OK is `done 0`. `no_result` is no code of
-- the kernel: a loop of the model ran out of fuel.
pub data Er : Type 0 where
  done : ℕ → Er
  e_sys e_nomem e_id e_noexs e_obj e_par e_ctx e_dlt e_tmout e_rlwai e_diswai e_qovr e_limit : Er
  e_dacv e_rsatr e_oname e_iluse no_result : Er

abbrev pub e_ok : Er
e_ok = done 0

-- The wait specifications: semaphore.c, eventflag.c and task_sync.c have one constant for each,
-- but for a task event, where it is on the caller's stack and holds the wait factor.
pub data Wspec : Type 0 where
  wspec_none wspec_slp wspec_sem_tfifo wspec_sem_tpri wspec_flg_tfifo wspec_flg_tpri : Wspec
  wspec_smbf_tfifo wspec_smbf_tpri wspec_rmbf wspec_mpf_tfifo wspec_mpf_tpri : Wspec
  wspec_mtx_tfifo wspec_mtx_tpri wspec_mtx_inherit wspec_mbx_tfifo wspec_mbx_tpri wspec_dly : Wspec
  wspec_tev : ℕ → Wspec

abbrev pub ttw_slp : ℕ
ttw_slp = 0x1

abbrev pub ttw_sem : ℕ
ttw_sem = 0x4

abbrev pub ttw_flg : ℕ
ttw_flg = 0x8

abbrev pub ttw_dly : ℕ
ttw_dly = 0x2

abbrev pub ttw_mbx : ℕ
ttw_mbx = 0x40

abbrev pub ttw_mtx : ℕ
ttw_mtx = 0x80

abbrev pub ttw_smbf : ℕ
ttw_smbf = 0x100

abbrev pub ttw_rmbf : ℕ
ttw_rmbf = 0x200

abbrev pub ttw_mpf : ℕ
ttw_mpf = 0x2000

-- The field `tskwait`.
abbrev pub tskwait : Wspec → ℕ
tskwait wspec_none = 0
tskwait wspec_slp = ttw_slp
tskwait wspec_sem_tfifo = ttw_sem
tskwait wspec_sem_tpri = ttw_sem
tskwait wspec_flg_tfifo = ttw_flg
tskwait wspec_flg_tpri = ttw_flg
tskwait wspec_smbf_tfifo = ttw_smbf
tskwait wspec_smbf_tpri = ttw_smbf
tskwait wspec_rmbf = ttw_rmbf
tskwait wspec_mpf_tfifo = ttw_mpf
tskwait wspec_mpf_tpri = ttw_mpf
tskwait wspec_mtx_tfifo = ttw_mtx
tskwait wspec_mtx_tpri = ttw_mtx
tskwait wspec_mtx_inherit = ttw_mtx
tskwait wspec_mbx_tfifo = ttw_mbx
tskwait wspec_mbx_tpri = ttw_mbx
tskwait wspec_dly = ttw_dly
tskwait (wspec_tev w) = w

-- Attribute bits.
abbrev pub ta_tpri : ℕ
ta_tpri = 0x1

abbrev pub ta_cnt : ℕ
ta_cnt = 0x2

abbrev pub ta_wmul : ℕ
ta_wmul = 0x8

abbrev pub ta_nodiswai : ℕ
ta_nodiswai = 0x80

abbrev pub ta_assprc : ℕ
ta_assprc = 0x20000

-- `(word & mask) != 0`.
abbrev pub has : ℕ → ℕ → Bool
has word mask = not (bit_and word mask == 0)

-- TCB, with the fields that the modelled code reads or writes. `wercd` is the variable of the
-- waiting system call to which the field of this name points. The members of the union `winfo`
-- have fields of their own; `rmbf_msgsz` is the variable of the receiving call to which the field
-- `p_msgsz` points.
pub record Tcb : Type 0 where
  pub tskid : ℕ
  pub tskatr : ℕ
  pub priority : ℕ
  pub bpriority : ℕ
  pub ipriority : ℕ
  pub state : Tstat
  pub nodiswai : Bool
  pub klockwait : Bool
  pub klocked : Bool
  pub wspec : Wspec
  pub wid : ℕ
  pub wupcnt : ℕ
  pub suscnt : ℕ
  pub wercd : Er
  pub sem_cnt : ℕ
  pub flg_waiptn : ℕ
  pub flg_wfmode : ℕ
  pub flg_p_flgptn : ℕ
  pub smbf_msg : ℕ
  pub smbf_msgsz : ℕ
  pub rmbf_msg : ℕ
  pub rmbf_msgsz : ℕ
  pub mpf_p_blf : ℕ
  pub mbx_ppk_msg : ℕ
  pub mtxlist : List ℕ
  pub waitmask : ℕ
  pub tskevt : ℕ
  pub slicetime : ℕ
  pub slicecnt : ℕ
  pub assprc : ℕ
  pub sysmode : ℕ
  pub stime : ℕ
  pub utime : ℕ

-- SEMCB and FLGCB, without the wait queue, which is `que (q_sem i)` or `que (q_flg i)`.
pub record Semcb : Type 0 where
  pub semid : ℕ
  pub sematr : ℕ
  pub semcnt : ℕ
  pub maxsem : ℕ

pub record Flgcb : Type 0 where
  pub flgid : ℕ
  pub flgatr : ℕ
  pub flgptn : ℕ

-- MBFCB and MPFCB, without the wait queues `q_smbf i`, `q_rmbf i` and `q_mpf i`. `buffer`, `mempool`,
-- `unused` and `freelist` are addresses in `mem`, and NULL is 0.
pub record Mbfcb : Type 0 where
  pub mbfid : ℕ
  pub mbfatr : ℕ
  pub bufsz : ℕ
  pub maxmsz : ℕ
  pub frbufsz : ℕ
  pub head : ℕ
  pub tail : ℕ
  pub buffer : ℕ

pub record Mpfcb : Type 0 where
  pub mpfid : ℕ
  pub mpfatr : ℕ
  pub mpfcnt : ℕ
  pub blfsz : ℕ
  pub mpfsz : ℕ
  pub frbcnt : ℕ
  pub mempool : ℕ
  pub unused : ℕ
  pub freelist : ℕ

-- MTXCB and MBXCB, without the wait queues `q_mtx i` and `q_mbx i`. The list of the mutexes that a
-- task has locked, which is linked by the field `mtxlist` of MTXCB, is a list of indices in the TCB.
-- `mq_head` is `mq_head.msgque[0]`; it and `mq_tail` are addresses in `mem`.
pub record Mtxcb : Type 0 where
  pub mtxid : ℕ
  pub mtxatr : ℕ
  pub ceilpri : ℕ
  pub mtxtsk : Option ℕ

pub record Mbxcb : Type 0 where
  pub mbxid : ℕ
  pub mbxatr : ℕ
  pub mq_head : ℕ
  pub mq_tail : ℕ

pub record Domcb : Type 0 where
  pub domid : ℕ
  pub domatr : ℕ
  pub objcnt : ℕ

-- The rings in which the field `tskque` of a TCB can be linked: the ready queue of a priority and
-- the wait queue of an object.
pub data Que : Type 0 where
  q_rdy q_sem q_flg q_smbf q_rmbf q_mpf q_mtx q_mbx : ℕ → Que

-- TMEB. `wtmeb t` has the callback `wait_release_tmout` with the argument t.
-- `cyctmeb` and `almtmeb` of the control block i have those of time_calls.c, with the argument i.
pub data Callback : Type 0 where
  cb_null : Callback
  cb_wait_release_tmout cb_distribute_cychdr cb_call_cychdr : ℕ → Callback
  cb_distribute_almhdr cb_call_almhdr : ℕ → Callback

pub record Tmeb : Type 0 where
  pub time : ℕ
  pub callback : Callback

-- CYCCB and ALMCB, without `gp`. `sta`, `run` and `imm` are the bits TCYC_STA, TCYC_RUN and TCYC_IMM
-- of `cycstat`, and those of `almstat`; `cyctmeb_time` is the field `time` of `cyctmeb`. A handler
-- is its address, and NULL is 0.
pub record Cyccb : Type 0 where
  pub exinf : ℕ
  pub cycatr : ℕ
  pub cychdr : ℕ
  pub sta : Bool
  pub run : Bool
  pub imm : Bool
  pub cyctim : ℕ
  pub cyctmeb_time : ℕ
  pub cycid : ℕ
  pub assprc : ℕ
  pub cycno : ℕ

pub record Almcb : Type 0 where
  pub exinf : ℕ
  pub almatr : ℕ
  pub almhdr : ℕ
  pub sta : Bool
  pub run : Bool
  pub imm : Bool
  pub almtmeb_time : ℕ
  pub almid : ℕ
  pub assprc : ℕ
  pub almno : ℕ

-- HDRQUE.
pub record Hdrque : Type 0 where
  pub upd : Bool
  pub act : Bool
  pub hdrque : List Tmeb

-- MP_OBJECT_TYPE.
pub data ObjectType : Type 0 where
  type_tsk type_sem type_flg type_mbx type_mtx type_mbf type_por type_mpf type_mpl : ObjectType
  type_cyc type_alm type_dom : ObjectType

-- The tables of the objects that only their own calls use. `hash_size` is the field `size` of the
-- hash table of each type, and `oname_at` the address at which a control block has the field
-- `oname`; `default_object_name` is the address of the empty name. `ipi_hdr`
-- says for which processors the interrupt IPI_HDR_ID is pending.
pub record Objects : Type 0 where
  pub max_mbfid : ℕ
  pub mbfcb : ℕ → Mbfcb
  pub free_mbfcb : List ℕ
  pub max_mpfid : ℕ
  pub mpfcb : ℕ → Mpfcb
  pub free_mpfcb : List ℕ
  pub max_mtxid : ℕ
  pub mtxcb : ℕ → Mtxcb
  pub free_mtxcb : List ℕ
  pub max_mbxid : ℕ
  pub mbxcb : ℕ → Mbxcb
  pub free_mbxcb : List ℕ
  pub max_cycid : ℕ
  pub cyccb : ℕ → Cyccb
  pub free_cyccb : List ℕ
  pub max_almid : ℕ
  pub almcb : ℕ → Almcb
  pub free_almcb : List ℕ
  pub handler_queue : ℕ → Hdrque
  pub ipi_hdr : ℕ → Bool
  pub free_domcb : List ℕ
  pub hash_size : ObjectType → ℕ
  pub oname_at : ObjectType → ℕ → ℕ
  pub default_object_name : ℕ

-- The fields from `bitmap` to `chg` are those of `ready_queue`; `top` has an entry for each of the
-- `num_proc` processors. `task_indp` and `int_disabled` are what `isTaskIndependent()` and
-- `isDI(getCPSR())` say on each processor. `mem` is the memory of the callers.
pub record Kernel : Type 0 where
  pub num_proc : ℕ
  pub max_tskid : ℕ
  pub max_semid : ℕ
  pub max_flgid : ℕ
  pub max_domid : ℕ
  pub oaplimit : ℕ
  pub timer_period : ℕ
  pub tcb : ℕ → Tcb
  pub que : Que → List ℕ
  pub bitmap : Mem
  pub klocktsk : Option ℕ
  pub top : List (Option ℕ)
  pub chg : Bool
  pub ctxtsk : ℕ → Option ℕ
  pub schedtsk : ℕ → Option ℕ
  pub dispatch_disabled : ℕ → ℕ
  pub task_indp : ℕ → Bool
  pub int_disabled : ℕ → Bool
  pub timer_queue : List Tmeb
  pub current_time : ℕ
  pub semcb : ℕ → Semcb
  pub free_semcb : List ℕ
  pub flgcb : ℕ → Flgcb
  pub free_flgcb : List ℕ
  pub domcb : ℕ → Domcb
  pub hash_key : ObjectType → ℕ → ℕ
  pub mem : Mem
  pub obj : Objects

-- Assignments to a TCB and to the control blocks of objects.
abbrev pub set_tcb : Kernel → ℕ → Tcb → Kernel
set_tcb k t c = record k { tcb = update k.tcb t c }

abbrev pub set_semcb : Kernel → ℕ → Semcb → Kernel
set_semcb k i c = record k { semcb = update k.semcb i c }

abbrev pub set_flgcb : Kernel → ℕ → Flgcb → Kernel
set_flgcb k i c = record k { flgcb = update k.flgcb i c }

abbrev pub set_mbfcb : Kernel → ℕ → Mbfcb → Kernel
set_mbfcb k i c = record k { obj = record k.obj { mbfcb = update k.obj.mbfcb i c } }

abbrev pub set_mpfcb : Kernel → ℕ → Mpfcb → Kernel
set_mpfcb k i c = record k { obj = record k.obj { mpfcb = update k.obj.mpfcb i c } }

abbrev pub set_mtxcb : Kernel → ℕ → Mtxcb → Kernel
set_mtxcb k i c = record k { obj = record k.obj { mtxcb = update k.obj.mtxcb i c } }

abbrev pub set_mbxcb : Kernel → ℕ → Mbxcb → Kernel
set_mbxcb k i c = record k { obj = record k.obj { mbxcb = update k.obj.mbxcb i c } }

abbrev pub set_cyccb : Kernel → ℕ → Cyccb → Kernel
set_cyccb k i c = record k { obj = record k.obj { cyccb = update k.obj.cyccb i c } }

abbrev pub set_almcb : Kernel → ℕ → Almcb → Kernel
set_almcb k i c = record k { obj = record k.obj { almcb = update k.obj.almcb i c } }

abbrev pub set_hdrque : Kernel → ℕ → Hdrque → Kernel
set_hdrque k i q = record k {
  obj = record k.obj { handler_queue = update k.obj.handler_queue i q };
}
