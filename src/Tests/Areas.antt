-- ===== src/Tests/Areas.antt =====
-- Area management on the sample device.
use paffs.Prelude.{◌≡◌, refl, [], arith}
use paffs.Types.{data_area}
use paffs.Superblock
use paffs.AreaMgmt.{init_as, close, retire, delete, erase_blocks}
use paffs.AreaMgmt.Prefix.{recovered}
use paffs.AreaMgmt.Crash.Init.{init_trace, init_as-crash_at}
use paffs.AreaMgmt.Crash.Close.{close_trace, close-crash_at}
use paffs.AreaMgmt.Crash.Retire.{retire_trace, retire-crash_at}
use paffs.AreaMgmt.Crash.Delete.{delete_trace, delete-crash_at}
use paffs.AreaMgmt.Trace.{IsOpen, init_as-logs, close-logs, retire-logs}
use paffs.AreaMgmt.DeleteTrace.{delete-logs}
use paffs.Tests.Sample.{env, device, memory_laws}

-- After a crash behind the second entry the area is in use as a data area.
init_as-crash_at_example :
    recovered env device device.sb 2 (init_trace env 4 data_area device.sb)
    ≡ (init_as env 4 data_area device).sb
init_as-crash_at_example =
    init_as-crash_at env 4 data_area device device 2 (omega arith) (omega arith)

close-crash_at_example :
    recovered env device device.sb 1 (close_trace env 2 device.sb) ≡ (close env 2 device).sb
unfolding Superblock.get_type
close-crash_at_example = close-crash_at env 2 device device 1 (omega arith) (omega arith)

retire-crash_at_example :
    recovered env device device.sb 3 (retire_trace env 4 device.sb) ≡ (retire env 4 device).sb
retire-crash_at_example = retire-crash_at env 4 device device 3 (omega arith)

delete-crash_at_example :
    recovered env device device.sb 4 (delete_trace env 2 device) ≡ (delete env 2 device).1.sb
unfolding Superblock.get_type Superblock.get_pos erase_blocks
delete-crash_at_example = delete-crash_at env 2 device device 4 (omega arith) refl refl

device-IsOpen : IsOpen env memory_laws [] 5 device
device-IsOpen = record {
  enabled = refl;
  has_mram = refl;
  roomy = omega arith;
  bits = omega arith;
  holds = refl;
}

device-IsOpen_four : IsOpen env memory_laws [] 4 device
device-IsOpen_four = record {
  enabled = refl;
  has_mram = refl;
  roomy = omega arith;
  bits = omega arith;
  holds = refl;
}

init_as-logs_test :
    (init_as env 4 data_area device).journal.persistence.written
    ≡ init_trace env 4 data_area device.sb
init_as-logs_test =
    init_as-logs env memory_laws 4 data_area [] device (omega arith) (omega arith) device-IsOpen

close-logs_test : (close env 2 device).journal.persistence.written ≡ close_trace env 2 device.sb
unfolding Superblock.get_type
close-logs_test =
    close-logs env memory_laws 2 [] device (omega arith) (omega arith) device-IsOpen_four

retire-logs_test : (retire env 4 device).journal.persistence.written ≡ retire_trace env 4 device.sb
retire-logs_test = retire-logs env memory_laws 4 [] device (omega arith) device-IsOpen

device-IsOpen_eight : IsOpen env memory_laws [] 8 device
device-IsOpen_eight = record {
  enabled = refl;
  has_mram = refl;
  roomy = omega arith;
  bits = omega arith;
  holds = refl;
}

delete-logs_example :
    (delete env 2 device).1.journal.persistence.written ≡ delete_trace env 2 device
unfolding Superblock.get_type Superblock.get_pos erase_blocks
delete-logs_example =
    delete-logs env memory_laws 2 [] device (omega arith) refl refl device-IsOpen_eight
