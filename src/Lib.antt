-- ===== src/Lib.antt =====
-- armboot, a boot loader for ARM boards: a model of its logic, and what is proved about it.
--
-- The program keeps an environment of variables in flash and in RAM, reads command lines from the
-- serial console, expands the variables in them and runs the commands, which load programs (over
-- the serial line, as S-records or by Kermit, or over the network), write, erase and protect the
-- flash, and set variables. The parts that are modelled, each in a file with child modules:
--
--   Env      common/cmd_nvedit.c. `Env` is `env_t`, its array as a list of bytes; `Board` is `bd_t`
--            with the globals and the console; `getenv`, `envmatch` and the loops of `getenv` keep
--            their names. Env.Setenv is `_do_setenv`, with its loops in Env.Setenv.Loops: `search`,
--            `delete` with `shift`, `append` with `find_double`, `write_string` and `write_values`;
--            and `update_copies`, which ends in `copy_filename` of net/net.c. Env.Commands is
--            `do_printenv`, and Env.Relocate `env_relocate`. Env.Storage is `do_saveenv` with
--            board/lart/env.c, `board_env_save` and the reading of the copy in flash, over the
--            drivers of the flash. Env.Image has the abstract environment, a list of names and
--            values, and the bytes that represent it.
--   Shell    common/main.c. Shell.Readline is `readline` with `delete_char` (`key` is its switch),
--            Shell.Parse is `parse_line`, which cuts the line in place, and Shell.Macros is
--            `process_macros`, which takes the values from Env. Shell.Run is `run_command` with
--            `do_run`, and `find_cmd` of common/command.c: `cut_token` finds the next ';', and
--            `run_token` is a round of the loop; `had_ctrlc` and `clear_ctrlc` of common/console.c are
--            functions on the state, as the commands are. Shell.Main is `main_loop`, a round of it
--            at a time, and Shell.Autoboot is `abortboot`. Shell.Readline.Editor, Shell.Parse.Words
--            and Shell.Macros.Template are the independent descriptions.
--   Flash    common/flash.c, and common/cmd_flash.c: `flash_sect_protect`, `abbrev_spec`
--            (Flash.Spec), and the commands `do_protect` and `do_flerase` (Flash.Commands). `Bank` is
--            `flash_info_t`, with its sectors as a list; the drivers of board/*/flash.c are functions
--            that the definitions take. Flash.Sectors says what a bank should be.
--   Srec     common/s_record.c, which `load_serial` calls for each line. The function's pieces are a
--            small monad over its locals and out parameters, where a piece may return from the
--            function; Srec.Line is the format of a line.
--   Memory   arrays of bytes, with the faults of accesses outside of them; Memory.Move is `memcpy`
--            and `memmove` of common/string.c.
--   MemCommand   common/cmd_mem.c: `do_mem_mw`, `do_mem_cmp`, `do_mem_cp`, `do_mem_base`
--            and `mod_mem` over a memory that is an interface, `Bus`; `do_mem_cp` ends in
--            `flash_write` of Flash.
--   Disk     disk/part_dos.c: `test_part_dos` and `get_partition_info_dos`. The tables of logical
--            partitions lead to each other; the fuel bounds their number.
--   Boot     common/cmd_bootm.c and common/armlinux.c, over the same interface: Boot.Bootm is
--            `do_bootm`, Boot.Gunzip the header of compressed data in front of zlib, and Boot.Linux
--            `boot_linux` with its tags; Boot.Linux.Tags is the list of tags as a kernel reads it,
--            and Boot.Ram a memory that is as Boot.Linux.Fields wants it. The fuel bounds the list of
--            lengths of a multi-file image and the names in a compressed one; without it such a list
--            has no end.
--   CString  the comparing and searching functions of common/string.c, and `simple_strtoul` of
--            common/vsprintf.c; CString.Print is its `number`. 32 rounds are enough for its digits.
--   Crc      common/crc32.c, which Env calls when it has changed the array.
--   Kermit   the binary download of common/cmd_boot.c: `load_serial_bin` with `k_recv`. `Link` has the
--            serial line and the variables, globals and locals; Kermit is the escapes and checkpoints
--            (`k_data_*`, `os_data_*`), Kermit.Answer the packets that are sent, Kermit.Receive the
--            loop, its `goto packet_error` a result of its own. Kermit.Frame and Kermit.Session are
--            the sender's side, written for themselves.
--   Serial   the S-record download of common/cmd_boot.c: `do_load_serial`, `load_serial` and
--            `read_record`, over Srec, Flash and CString, with `ctrlc` of common/console.c. A byte of
--            the line says whether it is there when the line is polled. Serial.Lines is what the
--            lines of a download are for.
--   Net      net/net.c, net/arp.c and net/rarp.c: the packets that `NetSetEther`, `NetSetIP`,
--            `ArpRequest` and `RarpRequest` make (Net.Send), and `NetReceive` (Net.Receive), which
--            answers with an `Event` where the code calls the packet handler or sends. Buffers are
--            lists of bytes; the processor is little-endian.
--
-- Conventions. Bytes are numbers; a C string is the list of its bytes in front of the NUL; a pointer
-- into a string is the rest of it, and a pointer into an array that is written to is an index.
-- Memory has `load` and `store`, and an access outside of an array is a fault. A run that may not
-- come to an end is an `Exec`: `done`, `fault` (also a call of `panic`, or a null pointer), or
-- `blocked`, where the console has no more input. `unsigned long` is written with its wrap-around
-- at 2 ^ 32, `int` results that can be negative are the integers of Prelude.Int, and -1 as an index
-- is `none`.
--
-- Bounds and fuel. The loops that walk over an array until they find a byte have fuel, one more than
-- the length of the array, since each round goes one byte on. The loop of ^W in `readline` has fuel
-- for each character of the line, and so has the loop of `run_command` over the tokens, of which
-- each takes a character at least. Running out of fuel is a fault. The sizes CFG_CBSIZE and
-- CFG_MAXARGS are arguments, and so are the configuration of a board (`Config`) and the table of
-- commands.
--
-- Not modelled: what `printf` prints, and `vsprintf` but for `number`; `do_askenv`;
-- CONFIG_BOOT_RETRY_TIME; the other commands; the protocols above UDP (net/bootp.c, net/tftp.c); the
-- other kinds of partition tables (disk/part_mac.c, disk/part_iso.c); the file systems (fs); the
-- drivers (board, cpu, drivers); and the libraries that are copied in (common/dlmalloc.c,
-- common/zlib.c, and common/lists.c, a list package from elsewhere).
pub mod Prelude
pub mod Memory
pub mod MemCommand
pub mod Disk
pub mod Boot
pub mod CString
pub mod Crc
pub mod Env
pub mod Srec
pub mod Flash
pub mod Kermit
pub mod Serial
pub mod Net
pub mod Shell
